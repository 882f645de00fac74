-- ===== src/RankDelta/Cache/Linked.antt =====
-- The list and the map of the cache hold the same elements, whatever is read or written.
use eventframed.Prelude.{
  ℕ, ◌<◌, String, true, false, none, some, ◌≡◌, inl, inr, ◌∙◌, arith, ==→≡, Bool-cases, eq_iff,
  eq_refl,
}
use eventframed.Prelude.Dict.{get, get-put, get-remove}
use eventframed.RankDelta.{DeltaRecord}
use eventframed.RankDelta.Cache.{CacheEntry, LruCache, move_to_front, back, evict, pushed}
use eventframed.RankDelta.Cache.Shape.{
  nat_mem, once, nat_mem-drop_element, once-drop_element, back-nat_mem,
}

-- The list and the map hold the same elements, each under its own key.
pub record Linked (c : LruCache) : Type 0 where
  pub single : once c.order ≡ true
  pub old : (e : ℕ) → nat_mem e c.order ≡ true → e < c.next
  pub listed : (key : String) {e : ℕ} → get key c.items ≡ some e → nat_mem e c.order ≡ true
  pub keyed : (key : String) {e : ℕ} → get key c.items ≡ some e → (c.cells e).key ≡ key
  pub found : (e : ℕ) → nat_mem e c.order ≡ true → get (c.cells e).key c.items ≡ some e

-- An element that comes first again, its entry written or not, under its old key.
pub touched-Linked :
    (c : LruCache) (l : Linked c) (key : String) {e : ℕ} (cells : ℕ → CacheEntry)
    → get key c.items ≡ some e
    → ((f : ℕ) → (cells f).key ≡ (c.cells f).key)
    → Linked (record c { order = move_to_front e c.order; cells = cells })
unfolding move_to_front
touched-Linked c l key {e} cells h same =
    let here = l.listed key h in
    record {
      single =
          ground (arith, once-drop_element e c.order l.single, nat_mem-drop_element e e c.order);
      old =
          λ f m. ground (arith, nat_mem-drop_element e f c.order, l.old f, l.old e here, ==→≡ e f);
      listed =
          λ k {e = f} g. ground (arith, nat_mem-drop_element e f c.order, l.listed k g, ==→≡ f e);
      keyed = λ k {e = f} g. same f ∙ l.keyed k g;
      found = λ f m.
          rw (same f)
            (l.found f (ground (arith, nat_mem-drop_element e f c.order, here, ==→≡ e f)));
    }

pub pushed-Linked :
    (c : LruCache) (l : Linked c) (key : String) (r : DeltaRecord)
    → get key c.items ≡ none
    → Linked (pushed key r c)
pushed-Linked c l key r h = record {
  single =
      let fresh : nat_mem c.next c.order ≡ false = elim (Bool-cases (nat_mem c.next c.order)) [
        | inl m ↦ absurd (omega (arith, l.old c.next m))
        | inr absent ↦ absent
      ] in
      ground (arith, fresh, l.single);
  old = λ f m. ground (arith, l.old f, ==→≡ c.next f);
  listed = λ k {e = f} g. ground (arith, get-put key k c.next c.items, l.listed k {e = f});
  keyed = λ k {e = f} g. ground (
    arith,
    get-put key k c.next c.items,
    l.listed k {e = f},
    l.keyed k {e = f},
    l.old f,
    ==→≡ f c.next,
    eq_iff key k,
  );
  found = λ f m. ground (
    arith,
    get-put key (c.cells f).key c.next c.items,
    get-put key key c.next c.items,
    eq_refl key,
    l.found f,
    ==→≡ f c.next,
    ==→≡ c.next f,
    eq_iff key (c.cells f).key,
  );
}

pub evict-Linked :
    (c : LruCache) (l : Linked c) {z : ℕ} → back c.order ≡ some z → Linked (evict (some z) c)
unfolding evict
evict-Linked c l {z} h =
    let here = back-nat_mem c.order h in
    record {
      single = once-drop_element z c.order l.single;
      old = λ f m. l.old f (ground (arith, nat_mem-drop_element z f c.order));
      listed = λ k {e = f} g. ground (
        arith,
        get-remove (c.cells z).key k c.items,
        nat_mem-drop_element z f c.order,
        l.listed k {e = f},
        l.keyed k {e = f},
        eq_iff (c.cells z).key k,
        ==→≡ f z,
      );
      keyed = λ k {e = f} g. l.keyed k (ground (arith, get-remove (c.cells z).key k c.items));
      found = λ f m. ground (
        arith,
        get-remove (c.cells z).key (c.cells f).key c.items,
        nat_mem-drop_element z f c.order,
        l.found f,
        l.found z here,
        eq_iff (c.cells z).key (c.cells f).key,
        ==→≡ f z,
      );
    }
