-- ===== src/Chain/Rebuild.antt =====
-- `rebuildAMF`: it ends, and leaves a forest that works.
use blockchain_test.Prelude.{ℕ, ◌+◌, ◌≤◌, ◌≡◌, refl, some, List, [], ◌∷◌, length}
use blockchain_test.Prelude.Bytes.{Bytes}
use blockchain_test.Outcome.{ok}
use blockchain_test.Block.{Block}
use blockchain_test.Forest.{Forest}
use blockchain_test.Forest.Adding.{IsForest}
use blockchain_test.Forest.Proving.{add_data-proved}
use blockchain_test.Chain.{Services, Occasion, add_each, items_of, rebuild_amf}
use blockchain_test.Chain.Walk.{IsLinked, walk-IsLinked}

module _ {Db : Type 0} (s : Services Db) where
  pub add_each-IsForest :
      (t : Occasion) (n : ℕ) (items : List Bytes) (f : Forest)
      → IsForest f
      → (f' : Forest) × (add_each s t n items f ≡ ok f') × IsForest f'
  unfolding add_each
  add_each-IsForest t n [] f forest = (f, refl, forest)
  add_each-IsForest t n (x ∷ xs) f forest =
      let (g, e, kept, _, _) = add_data-proved (Services.sha256 s) (t.moments n) x f forest in
      let (f', e', kept') = add_each-IsForest t (n + 1) xs g kept in (f', rw e e', kept')

  -- On linked blocks, `rebuildAMF` ends without a panic, with as much fuel as there are blocks: the
  -- result is the forest after the hash, the encoding and the transactions' identifiers of every
  -- block, newest first, went in, and it is again one on which `AddData` succeeds.
  pub rebuild_amf-IsForest :
      (fuel : ℕ) (t : Occasion) (db : Db) (last : Bytes) (blocks : List Block) (f : Forest)
      → IsLinked s db last blocks
      → length blocks ≤ fuel
      → IsForest f
      → (f' : Forest) × (rebuild_amf s fuel t db last f ≡ some (ok f'))
        × (add_each s t 0 (items_of s blocks) f ≡ ok f')
        × IsForest f'
  unfolding rebuild_amf
  rebuild_amf-IsForest fuel t db last blocks f linked enough forest =
      let (f', e, kept) = add_each-IsForest t 0 (items_of s blocks) f forest in
      let walked = walk-IsLinked s db blocks last fuel linked enough in
      (f', rw (walked, e) refl, e, kept)
