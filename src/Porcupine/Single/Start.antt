-- ===== src/Porcupine/Single/Start.antt =====
-- Lab 2/src/porcupine/checker.go: what holds of checkSingle at its start.
use mathlib.Core.Path.{subst}
use tda596_labs.Base.{
  ◌+◌, ◌≤◌, length-map, ℕ, suc, ◌<◌, ◌≡◌, refl, sym, ap, ◌∙◌, ◌⊎◌, inl, inr, arith, none, List, [],
  ◌∷◌, ◌++◌, All, length, length-replicate, replicate,
}
use tda596_labs.Porcupine.Bitset.{new_bitset}
use tda596_labs.Porcupine.Bitset.Laws.{InRange-new_bitset}
use tda596_labs.Porcupine.Model.{Filled}
use tda596_labs.Porcupine.Entry.{Entry, EntryKind, call_entry, return_entry}
use tda596_labs.Porcupine.Links.{
  Node, Linking, link_entry, make_linked_entries, insert_before, count_from,
}
use tda596_labs.Porcupine.Spec.{IsCalledOnce}
use tda596_labs.Porcupine.Tags.{addresses}
use tda596_labs.Porcupine.Linking.{
  tagged, entries-tagged, insert_before-IsStrung, count-Strung, IsStrung,
}
use tda596_labs.Porcupine.Linking.Nodes.{IsLinked}
use tda596_labs.Porcupine.Single.Budget.{most_rounds, rounds_from, rounds_from-same}
use tda596_labs.Porcupine.Single.Searching.{IsSearching}

kind_cases : (kind : EntryKind) → (kind ≡ call_entry) ⊎ (kind ≡ return_entry)
kind_cases call_entry = inl refl
kind_cases return_entry = inr refl

module _ {S V : Type 0} (model : Filled S V) (good : Entry V → Type 0) where
  All-append :
      (P : Node V → Type 0) (xs : List (Node V)) (n : Node V)
      → All P xs
      → P n
      → All P (xs ++ n ∷ [])
  All-append P [] n h p = (p, tt)
  All-append P (x ∷ xs) n h p = (h.0, All-append P xs n h.1 p)

  link_entry-All :
      (limit : ℕ) (e : Entry V) (k : Linking V)
      → e.id < limit
      → All (λ n. n.id < limit) k.nodes
      → All (λ n. n.id < limit) (link_entry e k).nodes
  unfolding link_entry
  link_entry-All limit e k small h = elim (kind_cases e.kind) [
    | inl is_call ↦ rw (is_call) (All-append (λ n. n.id < limit) k.nodes _ h small)
    | inr is_return ↦ rw (is_return) (All-append (λ n. n.id < limit) k.nodes _ h small)
  ]

  pub make_linked_entries-All :
      (limit : ℕ) (es : List (Entry V))
      → All (λ e. e.id < limit) es
      → All (λ n. n.id < limit) (make_linked_entries es).nodes
  unfolding make_linked_entries
  make_linked_entries-All limit [] h = tt
  make_linked_entries-All limit (e ∷ es) h =
      link_entry-All limit e (make_linked_entries es) h.0 (make_linked_entries-All limit es h.1)

  length-tagged : (es : List (Entry V)) → length (addresses (tagged es)) ≡ length es
  length-tagged [] = refl
  length-tagged (e ∷ es) = ap suc (length-tagged es)

  -- `n := length(entry) / 2`
  pub count_lem :
      (history : List (Entry V)) (k : Linking V)
      → IsLinked history k
      → count_from (length k.nodes) k.root k.links ≡ length history
  count_lem history k h =
      ap (λ r. count_from (length k.nodes) r k.links) h.root
      ∙ count-Strung (length k.nodes) k.links (addresses (tagged history)) h.strung.strung
          (omega (arith, length-tagged history, h.size))
      ∙ length-tagged history

  good_tagged : (es : List (Entry V)) → All good es → All (λ t. good t.1) (tagged es)
  good_tagged [] h = tt
  good_tagged (e ∷ es) h = (h.0, good_tagged es h.1)

  start_budget :
      (history : List (Entry V))
      → rounds_from (length (tagged history)) (length (tagged history)) + 0
        ≤ most_rounds (length history)
  start_budget history =
      let size : length (tagged history) ≡ length history =
        sym (length-map (tagged history) (λ t. t.1)) ∙ ap length (entries-tagged history) in
      subst (λ m. rounds_from m m + 0 ≤ most_rounds (length history)) (sym size)
        (omega (arith, rounds_from-same (length history)))

  pub start-IsSearching :
      (history : List (Entry V)) (k : Linking V) (n : ℕ)
      → IsLinked history k
      → IsCalledOnce history
      → All good history
      → IsSearching model k.nodes
          (length k.nodes)
          good
          (tagged history)
          n
          (most_rounds (length history))
          (record {
            links = insert_before (length k.nodes) k.root k.links;
            entry = k.root;
            state = model.init;
            linearized = new_bitset n;
            cache = [];
            calls = [];
            longest = replicate n none;
          })
  start-IsSearching history k n h once typed =
      let strung : IsStrung (suc (length k.nodes)) (insert_before (length k.nodes) k.root k.links)
          (length k.nodes ∷ addresses (tagged history)) =
        subst
          (λ r.
            IsStrung (suc (length k.nodes)) (insert_before (length k.nodes) r k.links)
              (length k.nodes ∷ addresses (tagged history)))
          (sym h.root)
          (insert_before-IsStrung (length k.nodes) k.links (addresses (tagged history))
            (subst (λ m. IsStrung m k.links (addresses (tagged history))) (sym h.size) h.strung)) in
      record {
        left = tagged history;
        seen = [];
        rest = tagged history;
        spent = 0;
        chain = (refl, refl);
        within = start_budget history;
        laid = record {
          listed = strung.strung.1;
          history = record {
            distinct = strung.distinct;
            described = h.described;
            paired = h.paired;
            once = subst IsCalledOnce (sym (entries-tagged history)) once;
            typed = good_tagged history typed;
          };
        };
        split = refl;
        passed = tt;
        at = h.root;
        size = length-replicate n none;
        bits = λ q below. InRange-new_bitset n q below;
      }
