-- ===== src/RankDelta/Cache/Entries.antt =====
-- The entries that the cache shows after an element was written, moved to the front or added.
use eventframed.Prelude.{
  ℕ, String, true, false, none, some, List, [], ◌∷◌, ◌≡◌, inl, inr, refl, ◌∙◌, arith, ◌==◌, ==→≡,
  str_eq, length, if◌then◌else◌, Bool-cases, eq_iff,
}
use eventframed.Prelude.Dict.{Dict, get, remove}
use eventframed.RankDelta.{DeltaRecord}
use eventframed.RankDelta.Cache.{
  CacheEntry, LruCache, drop_element, move_to_front, write_cell, pushed,
}
use eventframed.RankDelta.Cache.Shape.{
  nat_mem, shown, nat_mem-drop_element, length-drop_element, shown-drop_element,
}
use eventframed.RankDelta.Cache.Linked.{Linked}

abbrev pub entries : LruCache → Dict DeltaRecord
entries c = shown c.cells c.order

pub get-shown :
    (cells : ℕ → CacheEntry) (key : String) (e : ℕ) (xs : List ℕ)
    → ((f : ℕ) → nat_mem f xs ≡ true → str_eq (cells f).key key ≡ (f == e))
    → get key (shown cells xs) ≡ (if nat_mem e xs then some (cells e).delta_record else none)
unfolding get
get-shown cells key e [] only = refl
get-shown cells key e (x ∷ xs) only =
    let here = only x (ground arith) in
    let rest = get-shown cells key e xs (λ f k. only f (ground (arith, k))) in
    elim (Bool-cases (x == e)) [
      | inl same ↦ ground (arith, here, ==→≡ x e same)
      | inr differs ↦ ground (arith, here, rest)
    ]

pub get-shown_absent :
    (cells : ℕ → CacheEntry) (key : String) (xs : List ℕ)
    → ((f : ℕ) → nat_mem f xs ≡ true → str_eq (cells f).key key ≡ false)
    → get key (shown cells xs) ≡ none
unfolding get
get-shown_absent cells key [] only = refl
get-shown_absent cells key (x ∷ xs) only =
    let here = only x (ground arith) in
    let rest = get-shown_absent cells key xs (λ f k. only f (ground (arith, k))) in
    ground (arith, here, rest)

pub shown-write_cell :
    (cells : ℕ → CacheEntry) (e : ℕ) (entry : CacheEntry) (xs : List ℕ)
    → nat_mem e xs ≡ false
    → shown (write_cell e entry cells) xs ≡ shown cells xs
shown-write_cell cells e entry [] h = refl
shown-write_cell cells e entry (x ∷ xs) h = ground (arith, shown-write_cell cells e entry xs)

module _ (c : LruCache) (l : Linked c) (key : String) where
  pub only_hit :
      {e : ℕ}
      → get key c.items ≡ some e
      → (f : ℕ) → nat_mem f c.order ≡ true
      → str_eq (c.cells f).key key ≡ (f == e)
  only_hit {e} h f m =
      ground (arith, eq_iff (c.cells f).key key, l.found f m, l.keyed key h, ==→≡ f e)

  pub only_miss :
      get key c.items ≡ none
      → (f : ℕ) → nat_mem f c.order ≡ true
      → str_eq (c.cells f).key key ≡ false
  only_miss h f m = ground (arith, eq_iff (c.cells f).key key, l.found f m)

pub put_miss_entries :
    (c : LruCache) (l : Linked c) (key : String) (r : DeltaRecord)
    → entries (pushed key r c) ≡ (key, r) ∷ entries c
put_miss_entries c l key r =
    let fresh : nat_mem c.next c.order ≡ false = elim (Bool-cases (nat_mem c.next c.order)) [
      | inl m ↦ absurd (omega (arith, l.old c.next m))
      | inr absent ↦ absent
    ] in
    ground (
      arith,
      shown-write_cell c.cells c.next (record { key = key; delta_record = r }) c.order fresh,
    )

module _ (c : LruCache) (l : Linked c) (key : String) {e : ℕ} (h : get key c.items ≡ some e) where
  pub hit_entries : get key (entries c) ≡ some (c.cells e).delta_record
  hit_entries = ground (arith, get-shown c.cells key e c.order (only_hit c l key h), l.listed key h)

  pub hit_rest : shown c.cells (drop_element e c.order) ≡ remove key (entries c)
  hit_rest = shown-drop_element c.cells key e c.order (only_hit c l key h)

  pub hit_front :
      shown c.cells (move_to_front e c.order)
      ≡ (key, (c.cells e).delta_record) ∷ remove key (entries c)
  unfolding move_to_front
  hit_front = rw (l.keyed key h, hit_rest) refl

  pub hit_length : length (move_to_front e c.order) ≡ length c.order
  unfolding move_to_front
  hit_length = length-drop_element e c.order l.single (l.listed key h)

pub put_hit_entries :
    (c : LruCache) (l : Linked c) (key : String) (r : DeltaRecord) {e : ℕ}
    → get key c.items ≡ some e
    → shown
        (write_cell e (record { key = key; delta_record = r }) c.cells)
        (move_to_front e c.order)
      ≡ (key, r) ∷ remove key (entries c)
unfolding move_to_front
put_hit_entries c l key r {e} h =
    let gone : nat_mem e (drop_element e c.order) ≡ false =
      ground (arith, nat_mem-drop_element e e c.order) in
    let rest : shown (write_cell e (record { key = key; delta_record = r }) c.cells)
          (drop_element e c.order)
        ≡ remove key (entries c) =
      shown-write_cell c.cells e (record { key = key; delta_record = r }) (drop_element e c.order)
        gone
      ∙ hit_rest c l key h in
    ground (arith, rest)
