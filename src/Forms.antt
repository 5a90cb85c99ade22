-- ===== src/Forms.antt =====
-- The reference tables of forms (app/domain/form_template.py, app/domain/entity_form_ruleset.py):
-- which template of a form is in force for a year, and which forms an entity has to file.
pub mod Template
pub mod Ruleset
