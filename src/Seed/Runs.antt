-- ===== src/Seed/Runs.antt =====
-- Runs of the script of scripts/seed.py, and a run after another.
use stockstack.Common.{
  append_nil, ℕ, ◌≡◌, refl, sym, ap, subst, ◌∙◌, false, List, [], ◌∷◌, find, All, inl, inr, arith,
}
use stockstack.Common.Exec.{Result, ok, raise, Result-cases, bind-ok, ◌>>◌}
use stockstack.Common.Text.{Text}
use stockstack.Json.{Json}
use stockstack.Domain.{ProductType}
use stockstack.Repository.{Session, has_id, schema_version_of}
use stockstack.Uploads.Storage.{Files}
use stockstack.Seed.Data.{schemas, Sample, samples}
use stockstack.Seed.{
  add_schema, add_schemas, add_product, add_products, install, committed, closed, seeded,
  DiskFaults, SeedError, ensure_demo_image, seed,
}
use stockstack.Seed.Image.{ensure_demo_image-again}
use stockstack.Seed.Adds.{Adds, Adds-refl, Adds-trans, add_schema-Adds, add_product-Adds}
use stockstack.Seed.Listed.{HasSchema, HasProduct, Adds-HasSchema, Adds-HasProduct}

module _ (uuid7 : ℕ → ℕ) where
  add_schemas-Adds :
      (xs : List (ProductType × Json)) (s : Session)
      → (add_schemas uuid7 xs s).0 ≡ ok tt
      → Adds xs [] s (add_schemas uuid7 xs s).1
  unfolding add_schemas
  add_schemas-Adds [] s h = Adds-refl s
  add_schemas-Adds ((t, schema) ∷ xs) s h =
      let step = add_schema uuid7 t schema (schema_version_of t 1 s.db) in
      let (u, added, rest) = bind-ok (λ _. add_schemas uuid7 xs) step s h in
      let then_all = add_schemas-Adds xs (step s).1 (sym (ap (λ r. r.0) rest) ∙ h) in
      subst (Adds ((t, schema) ∷ xs) [] s) (sym (ap (λ r. r.1) rest))
        (Adds-trans {t = (step s).1} (add_schema-Adds uuid7 t schema s added) then_all)

  add_products-Adds :
      (xs : List Sample) (s : Session)
      → (add_products uuid7 xs s).0 ≡ ok tt
      → Adds [] xs s (add_products uuid7 xs s).1
  unfolding add_products
  add_products-Adds [] s h = Adds-refl s
  add_products-Adds (x ∷ xs) s h =
      let step = add_product uuid7 x (find (has_id x.id) s.db.products) in
      let (u, added, rest) = bind-ok (λ _. add_products uuid7 xs) step s h in
      let then_all = add_products-Adds xs (step s).1 (sym (ap (λ r. r.0) rest) ∙ h) in
      subst (Adds [] (x ∷ xs) s) (sym (ap (λ r. r.1) rest))
        (Adds-trans {t = (step s).1} (add_product-Adds uuid7 x s added) then_all)

  add_schemas-All :
      (xs : List (ProductType × Json)) (s : Session)
      → All (HasSchema s.db) xs
      → add_schemas uuid7 xs s ≡ (ok tt, s)
  unfolding add_schemas
  add_schemas-All [] s h = refl
  add_schemas-All ((t, schema) ∷ xs) s (there, rest) = ground (arith, add_schemas-All xs s rest)

  add_products-All :
      (xs : List Sample) (s : Session)
      → All (HasProduct s.db) xs
      → add_products uuid7 xs s ≡ (ok tt, s)
  unfolding add_products
  add_products-All [] s h = refl
  add_products-All (x ∷ xs) s (there, rest) = ground (arith, add_products-All xs s rest)

  install-ok :
      (a : List (ProductType × Json)) (xs : List Sample) (s : Session)
      → (install uuid7 a xs s).0 ≡ ok tt
      → (t : Session) × Adds a xs s t
        × (install uuid7 a xs s ≡ (ok tt, record t { committed = t.db }))
  install-ok a xs s h =
      let one = add_schemas uuid7 a in
      let two = add_products uuid7 xs in
      let (u, all_schemas, after_schemas) = bind-ok (λ _. two >> committed uuid7) one s h in
      let (v, all_products, after_products) =
        bind-ok (λ _. committed uuid7) two (one s).1 (sym (ap (λ r. r.0) after_schemas) ∙ h) in
      let t = (two (one s).1).1 in
      (
        t,
        subst (λ ys. Adds ys xs s t) (append_nil a)
            (Adds-trans {t = (one s).1} (add_schemas-Adds a s all_schemas)
              (add_products-Adds xs (one s).1 all_products)),
        after_schemas ∙ after_products,
      )

  install-All :
      (a : List (ProductType × Json)) (xs : List Sample) (s : Session)
      → All (HasSchema s.db) a
      → All (HasProduct s.db) xs
      → install uuid7 a xs s ≡ (ok tt, record s { committed = s.db })
  install-All a xs s h k = ground (arith, add_schemas-All a s h, add_products-All xs s k)

  seeded-ok :
      (a : List (ProductType × Json)) (xs : List Sample) (r : Result SeedError (Unit {0}) × Files)
      (s : Session)
      → (seeded uuid7 a xs r s).0 ≡ ok tt
      → (r.0 ≡ ok tt)
        × (t : Session) × Adds a xs s t
        × (seeded uuid7 a xs r s ≡ (ok tt, (r.1, record t { committed = t.db })))
  seeded-ok a xs (raise e, files) s h = cc
  seeded-ok a xs (ok u, files) s h = elim (Result-cases (install uuid7 a xs s).0) [
    | inl (v, done) ↦
        let (t, adds, after) = install-ok a xs s done in
        (refl, t, adds, ap (λ q. let r = closed uuid7 q.0 q.1 in (r.0, (files, r.1))) after)
    | inr (e, failed) ↦ absurd (ground arith)
  ]

  seeded-All :
      (a : List (ProductType × Json)) (xs : List Sample) (files : Files) (s : Session)
      → All (HasSchema s.db) a
      → All (HasProduct s.db) xs
      → seeded uuid7 a xs (ok tt, files) s ≡ (ok tt, (files, record s { committed = s.db }))
  seeded-All a xs files s h k =
      ap (λ q. let r = closed uuid7 q.0 q.1 in (r.0, (files, r.1))) (install-All a xs s h k)

  -- After a run of the script that answers, a run in any later session adds nothing: neither the
  -- image nor a row changes, whatever the writing of a file would do.
  pub seed-seed :
      (f g : DiskFaults) (files : Files) (s later : Session)
      → (seed uuid7 f (files, s)).0 ≡ ok tt
      → g.mkdir ≡ false
      → later.db ≡ (seed uuid7 f (files, s)).1.1.committed
      → let r = (seed uuid7 f (files, s)).1 in
        seed uuid7 g (r.0, later) ≡ (ok tt, (r.0, record later { committed = later.db }))
  unfolding seed
  seed-seed f g files s later h works same =
      let (made, t, adds, done) = seeded-ok schemas samples (ensure_demo_image f files) s h in
      let kept = (ensure_demo_image f files).1 in
      let now_there : later.db ≡ t.db = same ∙ ap (λ r. r.1.1.committed) done in
      let again : seeded uuid7 schemas samples (ok tt, kept) later
          ≡ (ok tt, (kept, record later { committed = later.db })) =
        seeded-All schemas samples kept later
          (subst (λ db. All (HasSchema db) schemas) (sym now_there)
            (Adds-HasSchema schemas samples s t adds))
          (subst (λ db. All (HasProduct db) samples) (sym now_there)
            (Adds-HasProduct schemas samples s t adds)) in
      subst
        (λ old.
          seeded uuid7 schemas samples (ensure_demo_image g old) later
          ≡ (ok tt, (old, record later { committed = later.db })))
        (sym (ap (λ r. r.1.0) done))
        (ap (λ r. seeded uuid7 schemas samples r later)
            (ensure_demo_image-again f g files made works)
          ∙ again)
