-- ===== src/Access/Served.antt =====
-- `CMPI_Get`: whatever it returns, the data comes from a complete entry under the key, or from the
-- MPI library.
use cla_mpi.Prelude.{
  ℕ, ◌≡◌, refl, ◌⊎◌, inl, inr, true, false, sym, ◌∙◌, ap, subst, Option, none, some, ltb, ltb_ℤ,
  pos, Bool-cases, Option-cases, eq_of_some,
}
use cla_mpi.Cache.{Double, Entry, Cache}
use cla_mpi.Flush.Copied.{Copies, mem_copy-cases}
use cla_mpi.HashTable.Slots.{Holds, InPlace}
use cla_mpi.Access.{
  Request, Code, hit, in_flight, not_cached, World, Chance, key_of, cache_get, respond, issue, get,
}
use cla_mpi.Access.Hit.{
  size_of_request, Answered, Complete, Issued, lookup_of, lookup_of_table, lookup_of_mem,
  lookup_found, get-respond, respond-hit,
}

module _ (double : Double) where
  open double use {F}

  -- From what a get returns.
  by_result :
      (q : Request) (w w' : World F) (code code' : Code) (v : World F)
      → ◌≡◌ {A = Option (Code × World F)} (some (code', v)) (some (code, w'))
      → Issued double q w v
      → Issued double q w w'
  by_result q w w' code code' v e i =
      subst (Issued double q w) (ap (λ (p : Code × World F). p.1) (eq_of_some e)) i

  issue-Issued :
      (q : Request) (size : ℕ) (w : World F) (c : Cache F) → Issued double q w (issue q size w c)
  unfolding issue
  issue-Issued q size w c = record { issued = refl; untouched = refl }

  respond-missed :
      (chance : Chance) (q : Request) (size : ℕ) (w : World F) (c : Cache F) (code : Code)
      (w' : World F)
      → respond double chance q size w c none ≡ some (code, w')
      → Issued double q w w'
  unfolding respond
  respond-missed chance q size w c code w' e =
      let issued = issue q size w c in
      let r = cache_get double chance (key_of q size) q.origin_addr issued.cache in
      elim (Bool-cases (ltb c.mem_size size)) [
        | inl big ↦ by_result q w w' code not_cached issued (rw big at e) (issue-Issued q size w c)
        | inr fits ↦ elim (Option-cases r) [
          | inl f ↦ let v = (rw (fits, f) at e) in cc
          | inr ((code', d), f) ↦
              by_result q w w' code code' (record issued { cache = d }) (rw (fits, f) at e)
                (let i = issue-Issued q size w c in
                  record { issued = i.issued; untouched = i.untouched })
        ]
      ]

  respond-waits :
      (chance : Chance) (q : Request) (size e : ℕ) (w : World F) (c : Cache F) (code : Code)
      (w' : World F)
      → ltb_ℤ (c.table_ptr e).pending (pos 0) ≡ false
      → respond double chance q size w c (some e) ≡ some (code, w')
      → Issued double q w w'
  unfolding respond
  respond-waits chance q size e w c code w' p r =
      by_result q w w' code in_flight (issue q size w c) (rw p at r) (issue-Issued q size w c)

  module _ (chance : Chance) (q : Request) (size e : ℕ) (w : World F) (c : Cache F) (code : Code)
      (w' : World F) (same_mem : c.mem ≡ w.cache.mem) (same_table : c.table_ptr ≡ w.cache.table_ptr)
      (h : Holds w.cache e) (k : (w.cache.table_ptr e).get_info ≡ key_of q size)
      (r : respond double chance q size w c (some e) ≡ some (code, w')) where
    abbrev entry : Entry
    entry = w.cache.table_ptr e

    -- A get that returns a hit has made its copy.
    respond-Copies :
        ltb_ℤ entry.pending (pos 0) ≡ true
        → Copies entry.get_info.size w.cache.mem entry.offset w.memory q.origin_addr
    unfolding respond
    respond-Copies complete =
        elim (mem_copy-cases entry.get_info.size w.cache.mem entry.offset w.memory q.origin_addr) [
          | inl copies ↦ copies
          | inr large ↦ let v = (rw (same_table, same_mem, complete, large) at r) in cc
        ]

    respond-served :
        (Complete double q size e w.cache × (code ≡ hit) × Answered double q size e w w')
        ⊎ Issued double q w w'
    respond-served = elim (Bool-cases (ltb_ℤ entry.pending (pos 0))) [
      | inr waits ↦ inr (respond-waits chance q size e w c code w' (rw same_table waits) r)
      | inl complete ↦
          let (v, f, a) =
            respond-hit double chance q size e w c (respond-Copies complete) same_mem same_table k
              complete in
          let same : ◌≡◌ {A = Code × World F} (hit, v) (code, w') = eq_of_some (sym f ∙ r) in
          inl (
            record { held = h; key = k; complete = complete },
            ap (λ (p : Code × World F). p.0) (sym same),
            subst (Answered double q size e w) (ap (λ (p : Code × World F). p.1) same) a,
          )
    ]

  -- For a table in order, whatever `CMPI_Get` returns: either it is a hit, with the data of a
  -- complete entry of the table under the key of the request and nothing handed to the MPI
  -- library, or the get has been handed to the MPI library exactly once and the memory of the
  -- program is as it was.
  pub get-Served :
      (extent : ℕ → ℕ) (chance : Chance) (q : Request) (w : World F) (code : Code) (w' : World F)
      → InPlace w.cache
      → get double extent chance q w ≡ some (code, w')
      → ((e : ℕ) × Complete double q (size_of_request double extent q) e w.cache
          × (code ≡ hit)
          × Answered double q (size_of_request double extent q) e w w')
        ⊎ Issued double q w w'
  get-Served extent chance q w code w' o r =
      let size = size_of_request double extent q in
      let l = lookup_of double extent q w in
      let from = λ (el : Option ℕ) (f : l.1 ≡ el).
        ap (respond double chance q size w l.0) (sym f)
        ∙ sym (get-respond double extent q w chance)
        ∙ r in
      elim (Option-cases l.1) [
        | inl f ↦ inr (respond-missed chance q size w l.0 code w' (from none f))
        | inr (e, f) ↦
            let (h, k) = lookup_found double extent q w e o f in
            elim (respond-served chance q size e w l.0 code w' (lookup_of_mem double extent q w)
              (lookup_of_table double extent q w) h k (from (some e) f)) [
                | inl (d, hits, a) ↦ inl (e, d, hits, a)
                | inr i ↦ inr i
              ]
      ]
