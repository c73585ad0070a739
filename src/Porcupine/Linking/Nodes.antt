-- ===== src/Porcupine/Linking/Nodes.antt =====
-- What the nodes of makeLinkedEntries hold.
use mathlib.Core.Path.{subst}
use tda596_labs.Base.{
  GoEq-nat, ℕ, zero, suc, ◌<◌, ◌≡◌, refl, sym, ap, ◌∙◌, inl, inr, arith, Option, none, some, List,
  [], ◌∷◌, ◌++◌, length, length-append, get_elem?, All, nat_eq, nat_eq_iff, Bool-cases,
  if◌then◌else◌,
}
use tda596_labs.Base.Dict.{lookup, insert, lookup-insert}
use tda596_labs.Porcupine.Entry.{Entry, call_entry, return_entry}
use tda596_labs.Porcupine.Links.{Node, Linking, link_entry, make_linked_entries, insert_before}
use tda596_labs.Porcupine.Links.Listed.{first, some_eq}
use tda596_labs.Porcupine.Tags.{
  Tagged, addresses, In, IsTarget, IsDescribed, MatchOf, Returned, Paired,
}
use tda596_labs.Porcupine.Linking.{tagged, IsStrung, insert_before-IsStrung}

get_elem?-front {ℓ} :
    {A : Type ℓ} (xs ys : List A) (i : ℕ) {x : A}
    → get_elem? xs i ≡ some x
    → get_elem? (xs ++ ys) i ≡ some x
get_elem?-front [] ys i h = absurd (cc)
get_elem?-front (x ∷ xs) ys zero h = h
get_elem?-front (x ∷ xs) ys (suc i) h = get_elem?-front xs ys i h

get_elem?-last {ℓ} :
    {A : Type ℓ} (xs : List A) (x : A) → get_elem? (xs ++ x ∷ []) (length xs) ≡ some x
get_elem?-last [] x = refl
get_elem?-last (y ∷ xs) x = get_elem?-last xs x

get_elem?-append_lt {ℓ} :
    {A : Type ℓ} (xs ys : List A) (i : ℕ) → i < length xs → get_elem? (xs ++ ys) i ≡ get_elem? xs i
get_elem?-append_lt [] ys i h = absurd (omega arith)
get_elem?-append_lt (x ∷ xs) ys zero h = refl
get_elem?-append_lt (x ∷ xs) ys (suc i) h = get_elem?-append_lt xs ys i (omega arith)

module _ {V : Type 0} where
  -- A later node leaves alone what the earlier ones say.
  IsTarget-front :
      (nodes : List (Node V)) (n : Node V) (m id : ℕ)
      → IsTarget nodes m id
      → IsTarget (nodes ++ n ∷ []) m id
  IsTarget-front nodes n m id t = record {
    node = t.node;
    there = get_elem?-front nodes (n ∷ []) m t.there;
    ends = t.ends;
    same_id = t.same_id;
  }

  IsDescribed-front :
      (nodes : List (Node V)) (n : Node V) (ts : Tagged V)
      → All (IsDescribed nodes) ts
      → All (IsDescribed (nodes ++ n ∷ [])) ts
  IsDescribed-front nodes n [] h = tt
  IsDescribed-front nodes n (t ∷ ts) h = (
    record {
      node = h.0.node;
      there = get_elem?-front nodes (n ∷ []) t.0 h.0.there;
      same_value = h.0.same_value;
      same_id = h.0.same_id;
      target = λ m match.
          let (is_call, target) = h.0.target m match in
          (is_call, IsTarget-front nodes n m t.1.id target);
    },
    IsDescribed-front nodes n ts h.1,
  )

  Paired-front :
      (nodes : List (Node V)) (n : Node V) (ts : Tagged V)
      → All (λ a. a < length nodes) (addresses ts)
      → Paired nodes ts
      → Paired (nodes ++ n ∷ []) ts
  Paired-front nodes n [] below h = tt
  Paired-front nodes n (t ∷ ts) below h = (
    λ m match.
        let (node, at, same) = match in
        h.0 m (node, sym (get_elem?-append_lt nodes (n ∷ []) t.0 below.0) ∙ at, same),
    Paired-front nodes n ts below.1 h.1,
  )

  -- What the number of a return is in the map.
  abbrev Found : List (Node V) → Tagged V → ℕ → ℕ → Type 0
  Found nodes ts id m =
      ((r : Entry V) × In m r ts × (r.kind ≡ return_entry) × (r.id ≡ id)) × IsTarget nodes m id

  Found-front :
      (nodes : List (Node V)) (n : Node V) (t : ℕ × Entry V) (ts : Tagged V) (id m : ℕ)
      → Found nodes ts id m
      → Found (nodes ++ n ∷ []) (t ∷ ts) id m
  Found-front nodes n t ts id m ((r, i, kind, same), target) =
      ((r, inr i, kind, same), IsTarget-front nodes n m id target)

  pub record IsLinked (es : List (Entry V)) (k : Linking V) : Type 0 where
    pub size : length k.nodes ≡ length es
    pub root : k.root ≡ first (addresses (tagged es))
    pub strung : IsStrung (length es) k.links (addresses (tagged es))
    pub described : All (IsDescribed k.nodes) (tagged es)
    pub paired : Paired k.nodes (tagged es)
    pub found : (id m : ℕ) → lookup id k.matches ≡ some m → Found k.nodes (tagged es) id m

  -- The parts that are the same for a call and for a return.
  linked_links :
      (es : List (Entry V)) (k : Linking V) (e : Entry V)
      → IsLinked es k
      → IsStrung
          (suc (length es))
          (insert_before (length k.nodes) k.root k.links)
          (addresses (tagged (e ∷ es)))
  linked_links es k e h =
      subst
        (λ r.
          IsStrung (suc (length es)) (insert_before (length k.nodes) r k.links)
            (addresses (tagged (e ∷ es))))
        (sym h.root)
        (subst
          (λ n.
            IsStrung (suc (length es)) (insert_before n (first (addresses (tagged es))) k.links)
              (addresses (tagged (e ∷ es))))
          (sym h.size)
          (insert_before-IsStrung (length es) k.links (addresses (tagged es)) h.strung))

  last_at :
      (nodes : List (Node V)) (n : Node V) (i : ℕ)
      → length nodes ≡ i
      → get_elem? (nodes ++ n ∷ []) i ≡ some n
  last_at nodes n i same =
      subst (λ j. get_elem? (nodes ++ n ∷ []) j ≡ some n) same (get_elem?-last nodes n)

  grown :
      (nodes : List (Node V)) (n : Node V) (i : ℕ)
      → length nodes ≡ i
      → length (nodes ++ n ∷ []) ≡ suc i
  grown nodes n i same = omega (arith, length-append nodes (n ∷ []))

  front_below :
      (es : List (Entry V)) (k : Linking V)
      → IsLinked es k
      → All (λ a. a < length k.nodes) (addresses (tagged es))
  front_below es k h =
      subst (λ n. All (λ a. a < n) (addresses (tagged es))) (sym h.size) h.strung.below

  abbrev linked_with : Linking V → Node V → List (ℕ × ℕ) → Linking V
  linked_with k n matches = record {
    root = some (length k.nodes);
    matches = matches;
    nodes = k.nodes ++ n ∷ [];
    links = insert_before (length k.nodes) k.root k.links;
  }

  linked_with-IsLinked :
      (es : List (Entry V)) (k : Linking V) (e : Entry V) (n : Node V) (matches : List (ℕ × ℕ))
      → IsLinked es k
      → IsDescribed (k.nodes ++ n ∷ []) (length es, e)
      → Returned (k.nodes ++ n ∷ []) (length es, e) (tagged es)
      → ((id m : ℕ) → lookup id matches ≡ some m → Found (k.nodes ++ n ∷ []) (tagged (e ∷ es)) id m)
      → IsLinked (e ∷ es) (linked_with k n matches)
  linked_with-IsLinked es k e n matches h described returned found = record {
    size = grown k.nodes n (length es) h.size;
    root = ap some h.size;
    strung = linked_links es k e h;
    described = (described, IsDescribed-front k.nodes n (tagged es) h.described);
    paired = (returned, Paired-front k.nodes n (tagged es) (front_below es k h) h.paired);
    found = found;
  }

  abbrev node_for : Entry V → Option ℕ → Node V
  node_for e match = record { value = e.value; match = match; id = e.id }

  -- The node of a match.
  same_match :
      (nodes : List (Node V)) (n : Node V) (i m : ℕ)
      → length nodes ≡ i
      → MatchOf (nodes ++ n ∷ []) i m
      → n.match ≡ some m
  same_match nodes n i m same (node, at, match) =
      subst (λ q. q.match ≡ some m) (some_eq (sym at ∙ last_at nodes n i same)) match

  return-IsLinked :
      (es : List (Entry V)) (k : Linking V) (e : Entry V)
      → IsLinked es k
      → e.kind ≡ return_entry
      → IsLinked (e ∷ es) (linked_with k (node_for e none) (insert e.id (length k.nodes) k.matches))
  return-IsLinked es k e h kind =
      let n = node_for e none in
      linked_with-IsLinked es k e n (insert e.id (length k.nodes) k.matches) h
        (record {
          node = n;
          there = last_at k.nodes n (length es) h.size;
          same_value = refl;
          same_id = refl;
          target = λ m match. absurd (cc);
        })
        (λ m match.
          let no_match : none ≡ some m = same_match k.nodes n (length es) m h.size match in
          absurd (cc))
        (λ id m at.
          let at' : (if nat_eq e.id id then some (length k.nodes) else lookup id k.matches)
              ≡ some m =
            sym (lookup-insert e.id id (length k.nodes) k.matches) ∙ at in
          elim (Bool-cases (nat_eq e.id id)) [
            | inl same ↦
                let here : length k.nodes ≡ m = some_eq (
                  sym (ap (λ q. if q then some (length k.nodes) else lookup id k.matches) same)
                  ∙ at') in
                let same_id : e.id ≡ id = (nat_eq_iff e.id id).0 same in
                (
                  (e, inl (sym here ∙ h.size, refl), kind, same_id),
                  record {
                    node = n;
                    there = last_at k.nodes n m here;
                    ends = refl;
                    same_id = same_id;
                  },
                )
            | inr other ↦
                Found-front k.nodes n (length es, e) (tagged es) id m
                  (h.found id m (
                    sym (ap (λ q. if q then some (length k.nodes) else lookup id k.matches) other)
                    ∙ at'))
          ])

  call-IsLinked :
      (es : List (Entry V)) (k : Linking V) (e : Entry V)
      → IsLinked es k
      → e.kind ≡ call_entry
      → IsLinked (e ∷ es) (linked_with k (node_for e (lookup e.id k.matches)) k.matches)
  call-IsLinked es k e h kind =
      let n = node_for e (lookup e.id k.matches) in
      linked_with-IsLinked es k e n k.matches h
        (record {
          node = n;
          there = last_at k.nodes n (length es) h.size;
          same_value = refl;
          same_id = refl;
          target = λ m match. (kind, IsTarget-front k.nodes n m e.id (h.found e.id m match).1);
        })
        (λ m match. (h.found e.id m (same_match k.nodes n (length es) m h.size match)).0)
        (λ id m at. Found-front k.nodes n (length es, e) (tagged es) id m (h.found id m at))

  link_entry-IsLinked :
      (es : List (Entry V)) (k : Linking V) (e : Entry V)
      → IsLinked es k
      → IsLinked (e ∷ es) (link_entry e k)
  unfolding link_entry
  link_entry-IsLinked es k e h =
      elim e.kind
          as (λ kind.
            e.kind ≡ kind
            → IsLinked (e ∷ es) (elim kind [
              | return_entry ↦
                  linked_with k (node_for e none) (insert e.id (length k.nodes) k.matches)
              | call_entry ↦ linked_with k (node_for e (lookup e.id k.matches)) k.matches
            ])) [ return_entry ↦ return-IsLinked es k e h | call_entry ↦ call-IsLinked es k e h ]
        refl

  -- What makeLinkedEntries makes of any entries.
  pub make_linked_entries_lem : (es : List (Entry V)) → IsLinked es (make_linked_entries es)
  unfolding make_linked_entries lookup
  make_linked_entries_lem [] = record {
    size = refl;
    root = refl;
    strung = record { strung = tt; free = λ q above. (refl, refl); distinct = tt; below = tt };
    described = tt;
    paired = tt;
    found = λ id m at. none_found id m at;
  }
    where
      none_found : (id m : ℕ) → lookup id [] ≡ some m → Found [] [] id m
      none_found id m at = absurd (cc)
  make_linked_entries_lem (e ∷ es) =
      link_entry-IsLinked es (make_linked_entries es) e (make_linked_entries_lem es)
