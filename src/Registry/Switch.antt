-- ===== src/Registry/Switch.antt =====
-- What an activation does to a table of versions.
use company_tax_and_accounti.Base.{
  ℕ, ◌≤◌, Bool, true, false, not, ◌&&◌, some, List, [], ◌∷◌, ◌≡◌, refl, ap, ◌∙◌, ◌⊎◌, inl, inr,
  arith, if◌then◌else◌, find, count_if, update_if, All, All-map, All-every, ◌==◌, Bool-cases,
}
use company_tax_and_accounti.Registry.{
  each, on_some, find-each, count_if-each, find_cong_on, count_if_cong_on, sole_row, find-kept,
  find_passes,
}

-- The rows of a table of versions: their id, whether they are in force, and the two updates.
pub record Versions (A : Type 0) : Type 0 where
  pub id : A → ℕ
  pub active : A → Bool
  pub activate : A → A
  pub supersede : A → A
  pub activate-id : (x : A) → id (activate x) ≡ id x
  pub supersede-id : (x : A) → id (supersede x) ≡ id x
  pub activate-active : (x : A) → active (activate x) ≡ true
  pub supersede-active : (x : A) → active (supersede x) ≡ false

-- A test of the rows that neither update changes, as that of a key.
pub record IsKept {A : Type 0} (v : Versions A) (key : A → Bool) : Type 0 where
  pub of_activate : (x : A) → key (v.activate x) ≡ key x
  pub of_supersede : (x : A) → key (v.supersede x) ≡ key x

module _ {A : Type 0} (v : Versions A) where
  abbrev pub in_force : (A → Bool) → A → Bool
  in_force key x = key x && v.active x

  abbrev pub has_id : ℕ → A → Bool
  has_id n x = v.id x == n

  -- The other rows in force of a key.
  abbrev pub prior : (A → Bool) → ℕ → A → Bool
  prior key n x = key x && (v.active x && not (v.id x == n))

  abbrev pub switched : (A → Bool) → ℕ → List A → List A
  switched key n xs = update_if (has_id n) v.activate (update_if (prior key n) v.supersede xs)

  module _ (key : A → Bool) (n : ℕ) where
    abbrev superseded : A → A
    superseded x = if prior key n x then v.supersede x else x

    abbrev switch : A → A
    switch x = if v.id (superseded x) == n then v.activate (superseded x) else superseded x

    switched-each : (xs : List A) → switched key n xs ≡ each switch xs
    switched-each [] = refl
    switched-each (x ∷ xs) = rw (switched-each xs) refl

    superseded-id : (x : A) → v.id (superseded x) ≡ v.id x
    superseded-id x = elim (Bool-cases (prior key n x)) [
      | inl is ↦ rw is (v.supersede-id x)
      | inr other ↦ rw other refl
    ]

    -- The row with the id is not one of those superseded.
    switch_self : (x : A) → v.id x == n ≡ true → switch x ≡ v.activate x
    switch_self x e = let keeps : prior key n x ≡ false = ground arith in rw (keeps, e) refl

    switch_other : (x : A) → v.id x == n ≡ false → switch x ≡ superseded x
    switch_other x e = rw (superseded-id x, e) refl

    switch-id : (x : A) → v.id (switch x) ≡ v.id x
    switch-id x = elim (Bool-cases (v.id x == n)) [
      | inl self ↦ rw (switch_self x self) (v.activate-id x)
      | inr other ↦ rw (switch_other x other) (superseded-id x)
    ]

    -- The number of rows with an id stays.
    pub switched-ids :
        (m : ℕ) (xs : List A) → count_if (has_id m) (switched key n xs) ≡ count_if (has_id m) xs
    switched-ids m xs = rw (switched-each xs) (
        count_if-each (has_id m) switch xs
        ∙ count_if_cong_on _ _ xs (All-every _ xs (λ x. rw (switch-id x) refl)))

    module _ (k : IsKept v key) where
      switch_own :
          (r x : A)
          → key r ≡ true
          → (v.id x == n ≡ false) ⊎ (x ≡ r)
          → in_force key (switch x) ≡ (v.id x == n)
      switch_own r x of_r h = elim (Bool-cases (v.id x == n)) [
        | inl self ↦ elim h [
          | inl other ↦ absurd (cc)
          | inr same ↦
              rw (switch_self x self, k.of_activate x, v.activate-active x, self, same, of_r) refl
        ]
        | inr other ↦ elim (Bool-cases (prior key n x)) [
          | inl is ↦
              rw (switch_other x other, is, k.of_supersede x, v.supersede-active x) (ground arith)
          | inr not_prior ↦ rw (switch_other x other, not_prior) (ground arith)
        ]
      ]

      module _ (xs : List A) (r : A) (one : count_if (has_id n) xs ≤ 1)
          (found : find (has_id n) xs ≡ some r) (of_r : key r ≡ true) where
        own : All (λ x. in_force key (switch x) ≡ (v.id x == n)) xs
        own = All-map _ _ xs (λ x h. switch_own r x of_r h) (sole_row (has_id n) xs r one found)

        -- The row is in force for its key afterwards, and there is no other.
        pub switched_own :
            (find (in_force key) (switched key n xs) ≡ some (v.activate r))
            × (count_if (in_force key) (switched key n xs) ≡ count_if (has_id n) xs)
        unfolding on_some
        switched_own = rw (switched-each xs) (
          find-each (in_force key) switch xs
              ∙ ap (on_some switch) (find_cong_on _ (has_id n) xs own ∙ found)
              ∙ ap some (switch_self r (find_passes (has_id n) xs r found)),
          count_if-each (in_force key) switch xs ∙ count_if_cong_on _ _ xs own,
        )

        -- Another key keeps its rows.
        module _ (other : A → Bool) (ok : IsKept v other)
            (disjoint : (x : A) → (key x && other x) ≡ false) where
          outside_of : (x : A) → key x ≡ true → other x ≡ false
          outside_of x e = let d = disjoint x in ground arith

          kept :
              (x : A)
              → (v.id x == n ≡ false) ⊎ (x ≡ r)
              → (in_force other (switch x) ≡ in_force other x)
                × ((in_force other x ≡ false) ⊎ (switch x ≡ x))
          kept x h = elim (Bool-cases (v.id x == n)) [
            | inl self ↦ elim h [
              | inl away ↦ absurd (cc)
              | inr same ↦
                  let outside : other x ≡ false = rw same (outside_of r of_r) in
                  (rw (switch_self x self, ok.of_activate x, outside) refl, inl (rw outside refl))
            ]
            | inr away ↦ elim (Bool-cases (prior key n x)) [
              | inl is ↦
                  let outside : other x ≡ false = outside_of x (ground arith) in
                  (
                    rw (switch_other x away, is, ok.of_supersede x, outside) refl,
                    inl (rw outside refl),
                  )
              | inr not_prior ↦
                  let same : switch x ≡ x = rw (switch_other x away, not_prior) refl in
                  (rw same refl, inr same)
            ]
          ]

          pub switched_other :
              (find (in_force other) (switched key n xs) ≡ find (in_force other) xs)
              × (count_if (in_force other) (switched key n xs) ≡ count_if (in_force other) xs)
          switched_other =
              let rows = All-map _ _ xs kept (sole_row (has_id n) xs r one found) in
              rw (switched-each xs) (
                find-kept (in_force other) switch xs rows,
                count_if-each (in_force other) switch xs
                    ∙ count_if_cong_on _ _ xs (All-map _ _ xs (λ x h. h.0) rows),
              )
