-- ===== src/Porcupine/Single/Noting.antt =====
-- Lab 2/src/porcupine/checker.go: checkSingle notes the longest sequences of calls.
use mathlib.Core.Path.{subst}
use tda596_labs.Base.{
  ℕ, zero, suc, ◌<◌, ◌≡◌, refl, sym, ◌∙◌, inl, inr, Bool, true, false, some, List, [], ◌∷◌, ◌++◌,
  get_elem?, All, length, length-set, get_elem?-of_lt, set, if◌then◌else◌, Bool-cases,
}
use tda596_labs.Base.Run.{Returns, Returns-bind, Returns-mono}
use tda596_labs.Porcupine.Model.{Filled}
use tda596_labs.Porcupine.Entry.{Entry}
use tda596_labs.Porcupine.Links.{Node, Links}
use tda596_labs.Porcupine.Links.Listed.{some_eq}
use tda596_labs.Porcupine.Tags.{Tagged}
use tda596_labs.Porcupine.Laid.{around}
use tda596_labs.Porcupine.Single.{Search, Longest, is_longer, note_longest, note_partial, ids_of}
use tda596_labs.Porcupine.Single.Taken.{Chain}
use tda596_labs.Porcupine.Single.Searching.{IsSearching}

module _ {S V : Type 0} (model : Filled S V) (nodes : List (Node V)) (head : ℕ)
    (good : Entry V → Type 0) (whole : Tagged V) (limit : ℕ) (small : All (λ n. n.id < limit) nodes)
    (budget : ℕ) where
  pub id-lt :
      (xs : List (Node V)) (i : ℕ) {n : Node V}
      → All (λ n. n.id < limit) xs
      → get_elem? xs i ≡ some n
      → n.id < limit
  id-lt [] i h e = absurd (cc)
  id-lt (x ∷ xs) zero h e = subst (λ n. n.id < limit) (some_eq e) h.0
  id-lt (x ∷ xs) (suc i) h e = id-lt xs i h.1 e

  note_longest-length :
      (seq ids : List ℕ) (longest : Longest)
      → All (λ id. id < length longest) ids
      → Returns (λ l. length l ≡ length longest) (note_longest model nodes head seq ids longest)
  unfolding note_longest
  note_longest-length seq [] longest h = refl
  note_longest-length seq (id ∷ ids) longest h =
      let (old, at) = get_elem?-of_lt longest id h.0 in
      let next : Longest =
        if is_longer model nodes head (length seq) old
        then set longest id (some seq)
        else longest in
      let kept : length next ≡ length longest =
        elim (Bool-cases (is_longer model nodes head (length seq) old)) [
          | inl longer ↦ rw (longer) (length-set longest id (some seq))
          | inr shorter ↦ rw (shorter) refl
        ] in
      rw (at) (
        Returns-mono (λ l. length l ≡ length next) (λ l. length l ≡ length longest)
          (note_longest model nodes head seq ids next)
          (note_longest-length seq ids next (subst (λ n. All (λ id. id < n) ids) (sym kept) h.1))
          (λ l same. same ∙ kept))

  All-append :
      (xs ys : List ℕ)
      → All (λ id. id < limit) xs
      → All (λ id. id < limit) ys
      → All (λ id. id < limit) (xs ++ ys)
  All-append [] ys h k = k
  All-append (x ∷ xs) ys h k = (h.0, All-append xs ys h.1 k)

  ids_of-lt :
      (calls : List (ℕ × S)) (s : S) (left : Tagged V) (l : Links) (spent : ℕ)
      → Chain model nodes head good whole calls s left l spent
      → Returns (All (λ id. id < limit)) (ids_of model nodes head calls)
  unfolding ids_of
  ids_of-lt [] s left l spent c = tt
  ids_of-lt ((x, s0) ∷ calls) s left l spent (t, spent', c, frame) =
      let (node, there, match) = t.matched in
      Returns-bind (All (λ id. id < limit)) (All (λ id. id < limit)) (ids_of model nodes head calls)
        _
        (ids_of-lt calls s0 (around t.before (x, t.call) t.mid (t.match, t.return) t.after) t.old
          spent' c)
        (λ seq below.
          rw (there) (All-append seq (node.id ∷ []) below (id-lt nodes x small there, tt)))

  pub note_partial-IsSearching :
      (compute_partial : Bool) (s : Search S)
      (h : IsSearching model nodes head good whole limit (suc budget) s)
      → Returns
          (λ s'.
            IsSearching model nodes head good whole limit (suc budget) s' × (s'.calls ≡ s.calls))
          (note_partial model nodes head compute_partial s)
  unfolding note_partial
  note_partial-IsSearching false s h = (h, refl)
  note_partial-IsSearching true s h =
      Returns-bind (All (λ id. id < limit)) _ (ids_of model nodes head s.calls) _
        (ids_of-lt s.calls s.state h.left s.links h.spent h.chain)
        (λ seq below.
          Returns-bind (λ l. length l ≡ length s.longest) _
            (note_longest model nodes head seq seq s.longest) _
            (note_longest-length seq seq s.longest
              (subst (λ n. All (λ id. id < n) seq) (sym h.size) below))
            (λ longest same. (
              record {
                left = h.left;
                seen = h.seen;
                rest = h.rest;
                spent = h.spent;
                chain = h.chain;
                within = h.within;
                laid = h.laid;
                split = h.split;
                passed = h.passed;
                at = h.at;
                size = same ∙ h.size;
                bits = h.bits;
              },
              refl,
            )))
