-- ===== src/RankDelta/Cache/Shape.antt =====
-- The lists of the cache: a list of places without repetition, and the entries that it shows.
use eventframed.Prelude.{
  ℕ, zero, suc, ◌≤◌, String, Bool, true, false, not, ◌&&◌, ◌||◌, none, some, List, [], ◌∷◌, ◌≡◌,
  inl, inr, refl, ap, arith, ◌==◌, ==→≡, str_eq, length, take, Bool-cases,
}
use eventframed.Prelude.Dict.{Dict, remove}
use eventframed.RankDelta.{DeltaRecord}
use eventframed.RankDelta.Cache.{CacheEntry, drop_element, back}

abbrev pub nat_mem : ℕ → List ℕ → Bool
nat_mem e [] = false
nat_mem e (x ∷ xs) = x == e || nat_mem e xs

abbrev pub once : List ℕ → Bool
once [] = true
once (x ∷ xs) = not (nat_mem x xs) && once xs

-- The entries under their keys, the most recent first.
abbrev pub shown : (ℕ → CacheEntry) → List ℕ → Dict DeltaRecord
shown cells [] = []
shown cells (e ∷ order) = ((cells e).key, (cells e).delta_record) ∷ shown cells order

pub nat_mem-drop_element :
    (e f : ℕ) (xs : List ℕ) → nat_mem f (drop_element e xs) ≡ (nat_mem f xs && not (f == e))
unfolding drop_element
nat_mem-drop_element e f [] = refl
nat_mem-drop_element e f (x ∷ xs) = ground (arith, nat_mem-drop_element e f xs)

pub once-drop_element : (e : ℕ) (xs : List ℕ) → once xs ≡ true → once (drop_element e xs) ≡ true
unfolding drop_element
once-drop_element e [] h = refl
once-drop_element e (x ∷ xs) h = ground (arith, once-drop_element e xs, nat_mem-drop_element e x xs)

drop_element-absent : (e : ℕ) (xs : List ℕ) → nat_mem e xs ≡ false → drop_element e xs ≡ xs
unfolding drop_element
drop_element-absent e [] h = refl
drop_element-absent e (x ∷ xs) h = ground (arith, drop_element-absent e xs)

pub length-drop_element :
    (e : ℕ) (xs : List ℕ)
    → once xs ≡ true
    → nat_mem e xs ≡ true
    → suc (length (drop_element e xs)) ≡ length xs
unfolding drop_element
length-drop_element e [] h k = cc
length-drop_element e (x ∷ xs) h k = elim (Bool-cases (x == e)) [
  | inl same ↦
      let absent : nat_mem e xs ≡ false = ground (arith, ==→≡ x e same) in
      ground (arith, drop_element-absent e xs absent)
  | inr differs ↦ ground (arith, length-drop_element e xs)
]

pub back-nat_mem : (xs : List ℕ) {z : ℕ} → back xs ≡ some z → nat_mem z xs ≡ true
unfolding back
back-nat_mem [] h = absurd (ground arith)
back-nat_mem (x ∷ []) h = ground arith
back-nat_mem (x ∷ y ∷ xs) h = ground (arith, back-nat_mem (y ∷ xs) h)

pub back-none : (xs : List ℕ) → back xs ≡ none → length xs ≡ 0
unfolding back
back-none [] h = refl
back-none (x ∷ []) h = absurd (ground arith)
back-none (x ∷ y ∷ xs) h = absurd (omega (arith, back-none (y ∷ xs) h))

pub take-fits : {V : Type 0} (n : ℕ) (xs : List V) → length xs ≤ n → take n xs ≡ xs
take-fits zero [] h = refl
take-fits zero (x ∷ xs) h = absurd (omega (arith, h))
take-fits (suc n) [] h = refl
take-fits (suc n) (x ∷ xs) h = ap (λ l. x ∷ l) (take-fits n xs (omega (arith, h)))

pub length-shown : (cells : ℕ → CacheEntry) (xs : List ℕ) → length (shown cells xs) ≡ length xs
length-shown cells [] = refl
length-shown cells (x ∷ xs) = ap suc (length-shown cells xs)

-- A list without its last element.
pub drop_element-back :
    (xs : List ℕ) {z : ℕ}
    → once xs ≡ true
    → back xs ≡ some z
    → (n : ℕ) → length xs ≡ suc n
    → drop_element z xs ≡ take n xs
unfolding drop_element back
drop_element-back [] o h n e = absurd (ground arith)
drop_element-back (x ∷ []) o h n e = ground arith
drop_element-back (x ∷ y ∷ xs) o h zero e = absurd (omega (arith, e))
drop_element-back (x ∷ y ∷ xs) {z} o h (suc n) e =
    let later : drop_element z (y ∷ xs) ≡ take n (y ∷ xs) =
      drop_element-back (y ∷ xs) (ground arith) h n (omega (arith, e)) in
    let here = back-nat_mem (y ∷ xs) h in ground (arith, later, here)

pub shown-take :
    (cells : ℕ → CacheEntry) (n : ℕ) (xs : List ℕ)
    → shown cells (take n xs) ≡ take n (shown cells xs)
shown-take cells zero xs = refl
shown-take cells (suc n) [] = refl
shown-take cells (suc n) (x ∷ xs) =
    ap (λ l. ((cells x).key, (cells x).delta_record) ∷ l) (shown-take cells n xs)

-- Where only the element `e` has the key, the list without it shows the entries without the key.
pub shown-drop_element :
    (cells : ℕ → CacheEntry) (key : String) (e : ℕ) (xs : List ℕ)
    → ((f : ℕ) → nat_mem f xs ≡ true → str_eq (cells f).key key ≡ (f == e))
    → shown cells (drop_element e xs) ≡ remove key (shown cells xs)
unfolding drop_element remove
shown-drop_element cells key e [] only = refl
shown-drop_element cells key e (x ∷ xs) only =
    let here : str_eq (cells x).key key ≡ (x == e) = only x (ground arith) in
    let rest = shown-drop_element cells key e xs (λ f k. only f (ground (arith, k))) in
    elim (Bool-cases (x == e)) [
      | inl same ↦ rw (here, same) rest
      | inr differs ↦
          rw (here, differs) (ap (λ l. ((cells x).key, (cells x).delta_record) ∷ l) rest)
    ]
