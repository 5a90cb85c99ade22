-- ===== src/Tax.antt =====
-- The tax module (app/domain/tax_service.py, app/domain/tax_catalog.py, app/domain/tax_automap.py).
pub mod Mapping
pub mod Worksheet
pub mod Generate
pub mod Catalog
pub mod Rules
pub mod Automap
pub mod Bulk
