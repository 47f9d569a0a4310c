-- ===== src/Access/Hit.antt =====
-- `CMPI_Get`: a get of a key that is cached and complete is answered from the buffer, and a get that
-- is not answered from the buffer goes to the MPI library.
use cla_mpi.Prelude.{
  ℕ, zero, suc, ◌+◌, ◌*◌, ◌^◌, ◌≤◌, ◌<◌, ◌≡◌, refl, ◌⊎◌, inl, inr, true, ◌&&◌, arith, ◌∙◌, ap,
  Option, some, ◌∷◌, ltb_ℤ, pos, Bool-cases, Option-cases,
}
use cla_mpi.Cache.{Double, Get, Cache, u32}
use cla_mpi.HashTable.{lookup_from, ht_lookup, is_used, same_get, slot_of, tables}
use cla_mpi.HashTable.Slots.{Holds, InPlace}
use cla_mpi.HashTable.Lookup.{Looked, ht_lookup-Looked}
use cla_mpi.Flush.{copy_bytes}
use cla_mpi.Flush.Copied.{copy_bytes_in, copy_bytes_out, mem_copy-Copies, Copies}
use cla_mpi.Access.{Request, hit, World, Chance, key_of, count_get, respond, get}

module _ {F : Type 0} where
  -- A lookup changes slots of the table and nothing else.
  lookup_from_same :
      (n i : ℕ) (c : Cache F) (key : Get)
      → let d = (lookup_from n i c key).0 in d ≡ record c { table = d.table }
  unfolding lookup_from
  lookup_from_same zero i c key = refl
  lookup_from_same (suc n) i c key =
      let s = c.table (slot_of c.ht_entries key i) in
      elim (Bool-cases (is_used s && same_get (c.table_ptr s.index).get_info key)) [
        | inl found ↦ rw found refl
        | inr missed ↦ rw missed (lookup_from_same n (i + 1) c key)
      ]

  ht_lookup_same :
      (c : Cache F) (key : Get) → let d = (ht_lookup c key).0 in d ≡ record c { table = d.table }
  unfolding ht_lookup
  ht_lookup_same c key = lookup_from_same tables 0 c key

module _ (double : Double) where
  open double use {F}

  -- The size of a request, as the code computes it.
  abbrev pub size_of_request : (ℕ → ℕ) → Request → ℕ
  size_of_request extent q = u32 (extent q.origin_datatype * q.origin_count)

  -- A get that has been answered from the buffer, with the data of an entry.
  pub record Answered (q : Request) (size e : ℕ) (w w' : World F) : Type 0 where
    pub not_issued : w'.gets ≡ w.gets
    pub copied :
        (k : ℕ)
        → k < size
        → w'.memory (q.origin_addr + k) ≡ w.cache.mem ((w.cache.table_ptr e).offset + k)
    pub rest : (a : ℕ) → (a < q.origin_addr) ⊎ (q.origin_addr + size ≤ a) → w'.memory a ≡ w.memory a

  counted : (c : Cache F) (size e : ℕ) → Holds (count_get double c size) e → Holds c e
  unfolding count_get
  counted c size e h = record { slot = h.slot; used = h.used; index = h.index }

  counted_back : (c : Cache F) (size e : ℕ) → Holds c e → Holds (count_get double c size) e
  unfolding count_get
  counted_back c size e h = record { slot = h.slot; used = h.used; index = h.index }

  -- A hit, with what the lookup has left.
  pub respond-hit :
      (chance : Chance) (q : Request) (size e : ℕ) (w : World F) (c : Cache F)
      → (let d = w.cache.table_ptr e in
          Copies d.get_info.size w.cache.mem d.offset w.memory q.origin_addr)
      → c.mem ≡ w.cache.mem
      → c.table_ptr ≡ w.cache.table_ptr
      → (w.cache.table_ptr e).get_info ≡ key_of q size
      → ltb_ℤ (w.cache.table_ptr e).pending (pos 0) ≡ true
      → (w' : World F) × (respond double chance q size w c (some e) ≡ some (hit, w'))
        × Answered q size e w w'
  unfolding respond key_of
  respond-hit chance q size e w c copies same_mem same_table k p =
      let d = w.cache.table_ptr e in
      let size_eq : d.get_info.size ≡ size = ap (λ (g : Get). g.size) k in
      let w' : World F = record w {
        cache = record c { stat = record c.stat { hits = u32 (c.stat.hits + 1) } };
        memory = copy_bytes d.get_info.size w.cache.mem d.offset w.memory q.origin_addr;
      } in
      (
        w',
        rw (same_table, same_mem, p) (rw copies refl),
        record {
          not_issued = refl;
          copied = λ j h.
              copy_bytes_in d.get_info.size w.cache.mem w.memory d.offset q.origin_addr j
                (omega (arith, size_eq, h));
          rest = λ a o.
              copy_bytes_out d.get_info.size w.cache.mem w.memory d.offset q.origin_addr a
                (omega (arith, size_eq, o));
        },
      )

  -- An entry of the table under the key of a request, whose data has arrived.
  pub record Complete (q : Request) (size e : ℕ) (c : Cache F) : Type 0 where
    pub held : Holds c e
    pub key : (c.table_ptr e).get_info ≡ key_of q size
    pub complete : ltb_ℤ (c.table_ptr e).pending (pos 0) ≡ true

  -- The get is in the hands of the MPI library, and has changed no memory of the program yet.
  pub record Issued (q : Request) (w w' : World F) : Type 0 where
    pub issued : w'.gets ≡ q ∷ w.gets
    pub untouched : w'.memory ≡ w.memory

  unfoldable pub lookup_of : (ℕ → ℕ) → Request → World F → Cache F × Option ℕ
  lookup_of extent q w =
      let size = size_of_request extent q in
      ht_lookup (count_get double w.cache size) (key_of q size)

  module _ (extent : ℕ → ℕ) (q : Request) (w : World F) where
    lookup_of-Looked :
        InPlace w.cache
        → let size = size_of_request extent q in
          let r = lookup_of extent q w in
          Looked (count_get double w.cache size) (key_of q size) r.0 r.1
    unfolding lookup_of count_get
    lookup_of-Looked o =
        let size = size_of_request extent q in
        ht_lookup-Looked (count_get double w.cache size) (key_of q size) o

    pub lookup_of_table : (lookup_of extent q w).0.table_ptr ≡ w.cache.table_ptr
    unfolding lookup_of count_get
    lookup_of_table = ap (λ (c : Cache F). c.table_ptr) (ht_lookup_same _ _)

    pub lookup_of_mem : (lookup_of extent q w).0.mem ≡ w.cache.mem
    unfolding lookup_of count_get
    lookup_of_mem = ap (λ (c : Cache F). c.mem) (ht_lookup_same _ _)

    pub get-respond :
        (chance : Chance)
        → get double extent chance q w
          ≡ respond double chance q
              (size_of_request extent q)
              w
              (lookup_of extent q w).0
              (lookup_of extent q w).1
    unfolding get lookup_of
    get-respond chance = refl

    pub lookup_found :
        (e : ℕ)
        → InPlace w.cache
        → (lookup_of extent q w).1 ≡ some e
        → Holds w.cache e × ((w.cache.table_ptr e).get_info ≡ key_of q (size_of_request extent q))
    unfolding count_get
    lookup_found e o f = let (h, k) = (lookup_of-Looked o).found e f in (counted w.cache _ e h, k)

    -- For a request of fewer than 2^31 bytes and a table in order that holds an entry under its
    -- key, where the data of every entry under that key has arrived: `CMPI_Get` returns a hit,
    -- hands nothing to the MPI library, fills the bytes of the request with the bytes of an entry
    -- under the key in the buffer, and leaves the other memory of the program as it was.
    pub get-Hit :
        (chance : Chance) (e : ℕ)
        → size_of_request extent q < 2 ^ 31
        → InPlace w.cache
        → ((i : ℕ)
            → Holds w.cache i
            → (w.cache.table_ptr i).get_info ≡ key_of q (size_of_request extent q)
            → ltb_ℤ (w.cache.table_ptr i).pending (pos 0) ≡ true)
        → Holds w.cache e
        → (w.cache.table_ptr e).get_info ≡ key_of q (size_of_request extent q)
        → (w' : World F) × (d : ℕ) × (get double extent chance q w ≡ some (hit, w'))
          × Complete q (size_of_request extent q) d w.cache
          × Answered q (size_of_request extent q) d w w'
    unfolding count_get key_of
    get-Hit chance e small o complete h k = elim (Option-cases (lookup_of extent q w).1) [
      | inl f ↦ absurd (((lookup_of-Looked o).missing f).1 e (counted_back w.cache _ e h) k)
      | inr (d, f) ↦
          let (held, key) = lookup_found d o f in
          let size_eq = ap (λ (g : Get). g.size) key in
          let (w', r, a) =
            respond-hit chance q _ d w (lookup_of extent q w).0
              (mem_copy-Copies _ _ _ _ _ (omega (arith, size_eq, small))) lookup_of_mem
              lookup_of_table key (complete d held key) in
          (
            w',
            d,
            get-respond chance ∙ ap (respond double chance q _ w (lookup_of extent q w).0) f ∙ r,
            record { held = held; key = key; complete = complete d held key },
            a,
          )
    ]
