-- ===== src/Migrations/Roundtrip.antt =====
-- The migration and the metadata of the models, and the migration and its way back.
use stockstack.Common.{◌≡◌, refl, sym, ap, ◌∙◌}
use mathlib.Core.Path.{fun_ext}
use stockstack.Common.Exec.{Exec, Result, ok, raise, pure, ◌>>◌, bind_result, bind-ok}
use stockstack.Migrations.{Operations, Table, Index}
use stockstack.Migrations.Initial.{
  upgrade, downgrade, products, products_listing, products_title_search, product_field_schemas,
  field_schema_active_type, product_images, product_images_one_main,
}
use stockstack.Migrations.Metadata.{metadata, create_indices, create_all}

module _ {S E : Type 0} where
  -- A step that answers with a state goes on from it.
  >>-step : (g k : Exec S E (Unit {0})) (t s : S) → g t ≡ (ok tt, s) → (g >> k) t ≡ k s
  >>-step g k t s e = ap (λ r. bind_result (λ _. k) r.0 r.1) e

  -- `k` takes back what `m` did.
  abbrev Undoes : Exec S E (Unit {0}) → Exec S E (Unit {0}) → Type 0
  Undoes m k = (s : S) → (m s).0 ≡ ok tt → k (m s).1 ≡ (ok tt, s)

  -- So do the steps of `back`, whatever comes after them.
  abbrev GoesBack : Exec S E (Unit {0}) → (Exec S E (Unit {0}) → Exec S E (Unit {0})) → Type 0
  GoesBack m back = (s : S) → (m s).0 ≡ ok tt → (k : Exec S E (Unit {0})) → back k (m s).1 ≡ k s

  Undoes-GoesBack : (m g : Exec S E (Unit {0})) → Undoes m g → GoesBack m (λ k. g >> k)
  Undoes-GoesBack m g undo s h k = >>-step g k (m s).1 s (undo s h)

  -- The way back of a sequence is that of its parts, in the opposite order.
  GoesBack->> :
      (m n : Exec S E (Unit {0})) (f g : Exec S E (Unit {0}) → Exec S E (Unit {0}))
      → GoesBack m f
      → GoesBack n g
      → GoesBack (m >> n) (λ k. g (f k))
  GoesBack->> m n f g there on s h k =
      let (u, first, rest) = bind-ok (λ _. n) m s h in
      ap (λ r. g (f k) r.1) rest ∙ on (m s).1 (sym (ap (λ r. r.0) rest) ∙ h) (f k) ∙ there s first k

  Undoes->> :
      (m n g : Exec S E (Unit {0})) (back : Exec S E (Unit {0}) → Exec S E (Unit {0}))
      → Undoes m g
      → GoesBack n back
      → Undoes (m >> n) (back g)
  Undoes->> m n g back undo on s h =
      let (u, first, rest) = bind-ok (λ _. n) m s h in
      ap (λ r. back g r.1) rest ∙ on (m s).1 (sym (ap (λ r. r.0) rest) ∙ h) g ∙ undo s first

  bind_result_assoc :
      (r : Result E (Unit {0})) (n k : Exec S E (Unit {0})) (s : S)
      → bind_result (λ _. k) (bind_result (λ _. n) r s).0 (bind_result (λ _. n) r s).1
        ≡ bind_result (λ _. n >> k) r s
  bind_result_assoc (ok u) n k s = refl
  bind_result_assoc (raise e) n k s = refl

  >>_assoc : (m n k : Exec S E (Unit {0})) → ((m >> n) >> k) ≡ (m >> (n >> k))
  >>_assoc m n k = fun_ext (λ s. bind_result_assoc (m s).0 n k (m s).1)

  bind_result-pure : (r : Result E (Unit {0})) (s : S) → bind_result (λ _. pure tt) r s ≡ (r, s)
  bind_result-pure (ok u) s = refl
  bind_result-pure (raise e) s = refl

  >>-pure : (m : Exec S E (Unit {0})) → (m >> pure tt) ≡ m
  >>-pure m = fun_ext (λ s. bind_result-pure (m s).0 (m s).1)

module _ (op : Operations) where
  -- The way back over an index, and over a table.
  abbrev back_index : Index → Exec op.State op.Error (Unit {0}) → Exec op.State op.Error (Unit {0})
  back_index i k = op.drop_index i.name i.table >> k

  abbrev back_table : Table → Exec op.State op.Error (Unit {0}) → Exec op.State op.Error (Unit {0})
  back_table t k = op.drop_table t.name >> k

  over_index : (i : Index) → GoesBack (op.create_index i) (back_index i)
  over_index i =
      Undoes-GoesBack (op.create_index i) (op.drop_index i.name i.table)
        (op.drop_index-create_index i)

  over_table : (t : Table) → GoesBack (op.create_table t) (back_table t)
  over_table t =
      Undoes-GoesBack (op.create_table t) (op.drop_table t.name) (op.drop_table-create_table t)

  index_then :
      (i : Index) (n : Exec op.State op.Error (Unit {0}))
      (g : Exec op.State op.Error (Unit {0}) → Exec op.State op.Error (Unit {0}))
      → GoesBack n g
      → GoesBack (op.create_index i >> n) (λ k. g (back_index i k))
  index_then i n g = GoesBack->> (op.create_index i) n (back_index i) g (over_index i)

  table_then :
      (t : Table) (n : Exec op.State op.Error (Unit {0}))
      (g : Exec op.State op.Error (Unit {0}) → Exec op.State op.Error (Unit {0}))
      → GoesBack n g
      → GoesBack (op.create_table t >> n) (λ k. g (back_table t k))
  table_then t n g = GoesBack->> (op.create_table t) n (back_table t) g (over_table t)

  -- Three tables with their indices.
  over_all :
      (a b c : Table) (i j k l : Index)
      → Undoes
          (op.create_table a
            >> (op.create_index i
                >> (op.create_index j
                    >> (op.create_table b
                        >> (op.create_index k >> (op.create_table c >> op.create_index l))))))
          (back_index l (
            back_table c
              (back_index k (back_table b (back_index j (back_index i (op.drop_table a.name)))))))
  over_all a b c i j k l =
      let from_c = table_then c _ (back_index l) (over_index l) in
      let from_k = index_then k _ (λ x. back_index l (back_table c x)) from_c in
      let from_b = table_then b _ (λ x. back_index l (back_table c (back_index k x))) from_k in
      let from_j =
        index_then j _ (λ x. back_index l (back_table c (back_index k (back_table b x)))) from_b in
      let from_i =
        index_then i _
          (λ x. back_index l (back_table c (back_index k (back_table b (back_index j x)))))
          from_j in
      Undoes->> (op.create_table a) _ (op.drop_table a.name)
        (λ x.
          back_index l (back_table c (back_index k (back_table b (back_index j (back_index i x))))))
        (op.drop_table-create_table a) from_i

  -- A migration upwards that goes through is taken back by `downgrade`, which goes through as well
  -- and leaves the database as it was before.
  pub downgrade-upgrade :
      (s : op.State) → (upgrade op s).0 ≡ ok tt → downgrade op (upgrade op s).1 ≡ (ok tt, s)
  unfolding upgrade downgrade
  downgrade-upgrade s h =
      over_all products product_field_schemas product_images products_listing products_title_search
        field_schema_active_type product_images_one_main s h

  -- The statements in the order of the metadata are those in the order of the migration.
  in_order :
      (a b c : Table) (i j k l : Index)
      → (op.create_table a
          >> (op.create_index i
              >> (op.create_index j
                  >> (op.create_table b
                      >> (op.create_index k >> (op.create_table c >> op.create_index l))))))
        ≡ (op.create_table a
            >> ((op.create_index i >> (op.create_index j >> pure tt))
                >> (op.create_table b
                    >> ((op.create_index k >> pure tt)
                        >> (op.create_table c >> ((op.create_index l >> pure tt) >> pure tt))))))
  in_order a b c i j k l = simp (>>_assoc, >>-pure)

  -- The migration asks the database for the tables, columns, constraints and indices that the
  -- models declare, and for nothing else.
  pub upgrade-metadata : (s : op.State) → upgrade op s ≡ create_all op metadata s
  unfolding upgrade create_all create_indices
  upgrade-metadata s =
      ap (λ m. m s)
        (in_order products product_field_schemas product_images products_listing
          products_title_search field_schema_active_type product_images_one_main)
