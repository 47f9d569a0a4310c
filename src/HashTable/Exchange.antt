-- ===== src/HashTable/Exchange.antt =====
-- The order of `CMPI_Get`: `ht_insert_check`, `ht_remove` of the entry that it names, `ht_insert`.
use cla_mpi.Prelude.{ℕ, ◌<◌, ◌≡◌, ◌≢◌, refl, inl, inr, true, sym, subst, ℤ, pos, negsuc}
use cla_mpi.Cache.{Double, Get, Cache}
use cla_mpi.HashTable.{is_used, tables, check_from, ht_insert_check, ht_remove, insert_rest}
use cla_mpi.HashTable.Slots.{Holds, InPlace, Apart}
use cla_mpi.HashTable.Insert.{HasRoom, insert_rest-Inserted}
use cla_mpi.HashTable.Check.{Verdict, ht_insert_check-Verdict}
use cla_mpi.HashTable.Lookup.{ht_remove-Removed}

module _ (double : Double) where
  open double use {F}

  -- The check changes the statistics and nothing else.
  ht_insert_check_same :
      (c : Cache F) (key : Get) (t : ℕ)
      → let d = (ht_insert_check double c key t).0 in d ≡ record c { stat = d.stat }
  unfolding ht_insert_check check_from
  ht_insert_check_same c key t = refl

  -- What the check and the insertion have done to the table.
  pub record Exchanged (c : Cache F) (key : Get) (entry : ℕ) (victim : ℤ) (c' : Cache F)
      : Type 0 where
    pub in_place : InPlace c'
    pub inserted : Holds c' entry
    pub inserted_key : (c'.table_ptr entry).get_info ≡ key
    pub kept : (i : ℕ) → victim ≢ pos i → Holds c i → Holds c' i
    pub nothing_else : (i : ℕ) → Holds c' i → i ≢ entry → Holds c i × (victim ≢ pos i)
    pub same_keys : (i : ℕ) → i ≢ entry → (c'.table_ptr i).get_info ≡ (c.table_ptr i).get_info

  -- The table that the insertion works on.
  abbrev pub make_room : Cache F → ℤ → Cache F
  make_room c (pos i) = ht_remove c i
  make_room c (negsuc _) = c

  exchange_victim :
      (c : Cache F) (key : Get) (t entry i : ℕ)
      → t < tables
      → 0 < c.getcount
      → (c.table_ptr entry).index ≡ entry
      → InPlace c
      → ((s : ℕ) → is_used (c.table s) ≡ true → (c.table s).index ≡ entry → pos i ≡ pos entry)
      → Holds c i
      → HasRoom (ht_remove c i) key t
      → Exchanged c key entry (pos i) (insert_rest (ht_remove c i) key t entry).0
  unfolding ht_remove
  exchange_victim c key t entry i h g e o a q w =
      let d = ht_remove c i in
      let (place, gone, keep, back) = ht_remove-Removed c i o q in
      let apart : Apart d entry = λ s u f.
        let mine = back entry (record { slot = s; used = u; index = f }) in
        let same : entry ≡ i = (let v = a mine.slot mine.used mine.index in cc) in
        gone (subst (Holds d) same (record { slot = s; used = u; index = f })) in
      let x = insert_rest-Inserted d key entry e apart place g t h w in
      record {
        in_place = x.in_place;
        inserted = x.inserted;
        inserted_key = x.inserted_key;
        kept = λ k ne p. x.kept k (keep k (λ f. ne (cc)) p);
        nothing_else = λ k p ne. elim (x.nothing_else k p) [
          | inl p' ↦ (back k p', λ f. gone (subst (Holds d) (let v = f in cc) p'))
          | inr f ↦ absurd (ne (sym f))
        ];
        same_keys = x.same_keys;
      }

  exchange :
      (c : Cache F) (key : Get) (t entry : ℕ) (victim : ℤ)
      → t < tables
      → 0 < c.getcount
      → (c.table_ptr entry).index ≡ entry
      → InPlace c
      → ((s : ℕ) → is_used (c.table s) ≡ true → (c.table s).index ≡ entry → victim ≡ pos entry)
      → Verdict double key t c victim
      → Exchanged c key entry victim (insert_rest (make_room c victim) key t entry).0
  exchange c key t entry (negsuc n) h g e o a (inr (i, same, q, w)) = cc
  exchange c key t entry (pos i) h g e o a (inl (same, w)) = cc
  exchange c key t entry (negsuc n) h g e o a (inl (same, w)) =
      let d = insert_rest-Inserted c key entry e (λ s u f. let v = a s u f in cc) o g t h w in
      record {
        in_place = d.in_place;
        inserted = d.inserted;
        inserted_key = d.inserted_key;
        kept = λ i ne q. d.kept i q;
        nothing_else = λ i q ne. elim (d.nothing_else i q) [
          | inl q' ↦ (q', λ f. cc)
          | inr f ↦ absurd (ne (sym f))
        ];
        same_keys = d.same_keys;
      }
  exchange c key t entry (pos i) h g e o a (inr (j, same, q, w)) =
      let f : j ≡ i = cc in
      exchange_victim c key t entry i h g e o a (subst (Holds c) f q)
        (subst (λ k. HasRoom (ht_remove c k) key t) f w)

  -- For a table in order, a number of gets that is not 0, and a descriptor with its own index that
  -- is in no slot or is the one that the check names: `ht_insert_check`, then `ht_remove` of the
  -- entry that it names, if any, then `ht_insert` leave a table in order that holds the new entry
  -- under its key, all old entries but the one named, and nothing else, and no other key has
  -- changed.
  pub ht_insert_check-Exchanged :
      (c : Cache F) (key : Get) (t entry : ℕ)
      → t < tables
      → 0 < c.getcount
      → (c.table_ptr entry).index ≡ entry
      → InPlace c
      → let r = ht_insert_check double c key t in
        ((s : ℕ) → is_used (c.table s) ≡ true → (c.table s).index ≡ entry → r.1 ≡ pos entry)
        → Exchanged r.0 key entry r.1 (insert_rest (make_room r.0 r.1) key t entry).0
  unfolding ht_insert_check check_from
  ht_insert_check-Exchanged c key t entry h g e o a =
      let r = ht_insert_check double c key t in
      exchange r.0 key t entry r.1 h g e o a (ht_insert_check-Verdict double c key t o)
