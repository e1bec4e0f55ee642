-- ===== src/Agent/Chain.antt =====
-- The history of a thread: each of its checkpoints names the one before as its parent. First what
-- an insert does to it, then the rules for code that goes on from a known latest checkpoint.
pub mod Operations
pub mod Requests
use nobleport.Prelude.{
  ◌≡◌, refl, sym, subst, ◌∙◌, ap, Bool, true, false, Option, none, some, List, [], ◌∷◌, ◌++◌,
  append-nil, arith, inl, inr, Bool-cases, Option-cases, if◌then◌else◌,
}
use nobleport.Python.Text.{Text, text_eq, text_eq_iff}
use nobleport.Schema.{CheckpointRow, thread_checkpoints, latest_checkpoint}
use nobleport.Schema.Checkpoints.{thread_checkpoints-append, last?, latest_checkpoint-eq-last?}
use nobleport.World.{World, Result, ok, raised, Exec, pure, continue, ◌>>=◌}
use nobleport.World.Binds.{eq_of_ok}
use nobleport.World.Respects.{Change, Respects}

-- the first row has the given parent, and each later row the row before it
abbrev pub IsChain : Option Text → List CheckpointRow → Type 0
IsChain parent [] = Unit
IsChain parent (r ∷ rows) = (r.parent_id ≡ parent) × IsChain (some r.checkpoint_id) rows

-- the checkpoints of every thread form a chain that begins without a parent
abbrev pub HasChains : List CheckpointRow → Type 0
HasChains rows = (t : Text) → IsChain none (thread_checkpoints t rows)

abbrev pub id_of : Option CheckpointRow → Option Text
id_of none = none
id_of (some r) = some r.checkpoint_id

abbrev or_parent : Option Text → Option CheckpointRow → Option Text
or_parent parent none = parent
or_parent parent (some r) = some r.checkpoint_id

IsChain-append :
    (parent : Option Text) (rows : List CheckpointRow) (r : CheckpointRow)
    → IsChain parent rows
    → r.parent_id ≡ or_parent parent (last? rows)
    → IsChain parent (rows ++ r ∷ [])
IsChain-append parent [] r c e = (e, tt)
IsChain-append parent (s ∷ rows) r c e =
    (c.0, IsChain-append (some s.checkpoint_id) rows r c.1 (e ∙ same))
  where
    same : or_parent parent (last? (s ∷ rows)) ≡ or_parent (some s.checkpoint_id) (last? rows)
    same = elim (Option-cases (last? rows)) [ inl h ↦ rw h refl | inr (u, h) ↦ rw h refl ]

or_parent-none : (o : Option CheckpointRow) → or_parent none o ≡ id_of o
or_parent-none none = refl
or_parent-none (some r) = refl

-- a new row whose parent is the latest row of its thread
pub HasChains-append :
    (rows : List CheckpointRow) (r : CheckpointRow)
    → HasChains rows
    → r.parent_id ≡ id_of (latest_checkpoint r.thread_id rows)
    → HasChains (rows ++ r ∷ [])
HasChains-append rows r c e t = elim (Bool-cases (text_eq r.thread_id t)) [
  | inl own ↦
      let same : id_of (latest_checkpoint r.thread_id rows)
          ≡ or_parent none (last? (thread_checkpoints t rows)) =
        rw ((text_eq_iff r.thread_id t).0 own, latest_checkpoint-eq-last? t rows)
          (sym (or_parent-none _)) in
      rw (thread_checkpoints-append t rows r, own)
        (IsChain-append none (thread_checkpoints t rows) r (c t) (e ∙ same))
  | inr other ↦
      rw (thread_checkpoints-append t rows r, other, append-nil (thread_checkpoints t rows)) (c t)
]

-- a change that leaves the checkpoints alone
abbrev pub same_checkpoints : Change
same_checkpoints = record {
  rel = λ u w. w.tables.langgraph_checkpoints ≡ u.tables.langgraph_checkpoints;
  rel_refl = λ w. refl;
  rel_trans = λ u v w a b. b ∙ a;
  rel_tick = λ w. refl;
}

module _ (tid : Text) where
  abbrev pub tip : World → Option Text
  tip w = id_of (latest_checkpoint tid w.tables.langgraph_checkpoints)

  -- the checkpoints are chained, and `parent` is the latest of the thread
  pub record At (parent : Option Text) (w : World) : Type 0 where
    pub chains : HasChains w.tables.langgraph_checkpoints
    pub latest : tip w ≡ parent

  -- code that, begun where `parent` is the latest, leaves the checkpoints chained
  pub record Chained (parent : Option Text) {A : Type 0} (m : Exec A) : Type 0 where
    pub chains : (w : World) → At parent w → HasChains (m w).1.tables.langgraph_checkpoints

  -- the same, and what it returns tells the checkpoint that is then the latest
  pub record Continues (parent : Option Text) {A : Type 0} (next : A → Option Text) (m : Exec A)
      : Type 0 where
    pub chained : Chained parent m
    pub latest : (w : World) (a : A) → At parent w → (m w).0 ≡ ok a → tip (m w).1 ≡ next a

  module _ (parent : Option Text) {A : Type 0} where
    pub Chained-same : (m : Exec A) → Respects same_checkpoints m → Chained parent m
    Chained-same m k = record { chains = λ w h. subst HasChains (sym (k.at w)) h.chains }

    pub Continues-same :
        (m : Exec A) → Respects same_checkpoints m → Continues parent (λ _. parent) m
    Continues-same m k = record {
      chained = Chained-same m k;
      latest = λ w a h e. rw (k.at w) h.latest;
    }

    pub Continues-pure :
        (next : A → Option Text) (a : A) → parent ≡ next a → Continues parent next (pure a)
    unfolding pure
    Continues-pure next a same = record {
      chained = record { chains = λ w h. h.chains };
      latest = λ w b h e. h.latest ∙ same ∙ ap next (eq_of_ok a b e);
    }

  module _ (parent : Option Text) {A B : Type 0} (next : A → Option Text) (m : Exec A)
      (f : A → Exec B) (km : Continues parent next m) where
    pub Chained-bind : ((a : A) → Chained (next a) (f a)) → Chained parent (m >>= f)
    unfolding ◌>>=◌
    Chained-bind kf = record { chains = λ w h. go w h (m w).0 refl }
      where
        go :
            (w : World) (h : At parent w) (r : Result A)
            → (m w).0 ≡ r
            → HasChains (continue r f (m w).1).1.tables.langgraph_checkpoints
        go w h (ok a) e =
            (kf a).chains (m w).1
              (record { chains = km.chained.chains w h; latest = km.latest w a h e })
        go w h (raised x) e = km.chained.chains w h

    pub Continues-bind :
        (next' : B → Option Text)
        → ((a : A) → Continues (next a) next' (f a))
        → Continues parent next' (m >>= f)
    unfolding ◌>>=◌
    Continues-bind next' kf = record {
      chained = Chained-bind (λ a. (kf a).chained);
      latest = λ w b h. go w b h (m w).0 refl;
    }
      where
        go :
            (w : World) (b : B) (h : At parent w) (r : Result A)
            → (m w).0 ≡ r
            → (continue r f (m w).1).0 ≡ ok b
            → tip (continue r f (m w).1).1 ≡ next' b
        go w b h (ok a) e k =
            (kf a).latest (m w).1 b
              (record { chains = km.chained.chains w h; latest = km.latest w a h e }) k
        go w b h (raised x) e k = absurd (ground (arith, k))

  -- what follows leaves the checkpoints alone
  pub Chained-then :
      (parent : Option Text) {A B : Type 0} (m : Exec A) (f : A → Exec B)
      → Chained parent m
      → ((a : A) → Respects same_checkpoints (f a))
      → Chained parent (m >>= f)
  unfolding ◌>>=◌
  Chained-then parent {A = A} m f km kf = record {
    chains = λ w h. go (m w).0 (m w).1 (km.chains w h);
  }
    where
      go :
          (r : Result A) (w : World)
          → HasChains w.tables.langgraph_checkpoints
          → HasChains (continue r f w).1.tables.langgraph_checkpoints
      go (ok a) w h = subst HasChains (sym ((kf a).at w)) h
      go (raised x) w h = h
