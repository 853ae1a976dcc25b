-- ===== src/Sessions/Uniqueness.antt =====
-- In server/session_manager.py no two live sessions hold one direction.
use mathlib.Core.Bool.{false≢true}
use smart_traffic_management.Common.{
  ℕ, ◌≤◌, String, ◌≡◌, refl, sym, ap, ◌∙◌, true, false, not, Option, none, some, ◌⊎◌, arith,
  Bool-cases, &&_parts, inl, inr, find,
}
use smart_traffic_management.Common.Equality.{beq, beq→eq, eq→beq, string_eq}
use smart_traffic_management.Common.Dict.{
  get, put, pop, values, IsDict, put-IsDict, pop-IsDict, get-put, get-pop, find-values,
  find-values-none,
}
use smart_traffic_management.Signal.Types.{LaneId, lane_id_eq_inst}
use smart_traffic_management.Sessions.{
  NodeSession, SessionManager, is_expired, direction_of, holds, remove_session, evict, new_session,
  create_session,
}

-- Every session stands under its node's id, and a direction has at most one session that is alive.
pub record IsValid (now : ℕ) (m : SessionManager) : Type 0 where
  pub dict : IsDict m.sessions
  pub keyed : (k : String) (s : NodeSession) → get k m.sessions ≡ some s → s.node_id ≡ k
  pub one_each :
      (j k : String) (s t : NodeSession)
      → get j m.sessions ≡ some s
      → get k m.sessions ≡ some t
      → is_expired now s ≡ false
      → is_expired now t ≡ false
      → s.camera_direction ≡ t.camera_direction
      → j ≡ k

is_expired_later :
    (now later : ℕ) (s : NodeSession)
    → now ≤ later
    → is_expired later s ≡ false
    → is_expired now s ≡ false
unfolding is_expired
is_expired_later now later s h e = ground arith

-- Time passes: what is valid stays valid.
pub later-IsValid :
    (now later : ℕ) (m : SessionManager) → now ≤ later → IsValid now m → IsValid later m
later-IsValid now later m h v = record {
  dict = v.dict;
  keyed = v.keyed;
  one_each = λ j k s t gj gk es et same.
      v.one_each j k s t gj gk (is_expired_later now later s h es)
        (is_expired_later now later t h et) same;
}

pub remove_session-IsValid :
    (now : ℕ) (node : String) (m : SessionManager)
    → IsValid now m
    → IsValid now (remove_session node m)
unfolding remove_session
remove_session-IsValid now node m v = record {
  dict = pop-IsDict node m.sessions v.dict;
  keyed = λ k s g. v.keyed k s (kept k s g);
  one_each = λ j k s t gj gk. v.one_each j k s t (kept j s gj) (kept k t gk);
}
  where
    kept :
        (k : String) (s : NodeSession)
        → get k (pop node m.sessions) ≡ some s
        → get k m.sessions ≡ some s
    kept k s g = ground (arith, get-pop node k m.sessions)

module _ (now : ℕ) (node : String) (dir : LaneId) (m : SessionManager) (v : IsValid now m) where
  -- After the eviction only the node itself may hold the direction.
  Free : SessionManager → Type 0
  Free m' =
      (k : String) (t : NodeSession)
      → get k m'.sessions ≡ some t
      → is_expired now t ≡ false
      → t.camera_direction ≡ dir
      → k ≡ node

  evict-Free :
      (o : Option NodeSession)
      → find (holds now dir) (values m.sessions) ≡ o
      → Free (evict node o m) × IsValid now (evict node o m)
  unfolding Free remove_session
  evict-Free none e = (
    λ k t g alive same. absurd (
        false≢true
          (sym (find-values-none (holds now dir) m.sessions k t e g) ∙ holds_of t alive same)),
    v,
  )
    where
      holds_of :
          (t : NodeSession)
          → is_expired now t ≡ false
          → t.camera_direction ≡ dir
          → holds now dir t ≡ true
      holds_of t alive same = ground (arith, eq→beq t.camera_direction dir, alive, same)
  evict-Free (some ex) e =
      let (k0, found, passes) = find-values (holds now dir) m.sessions ex v.dict e in
      let key : ex.node_id ≡ k0 = v.keyed k0 ex found in
      let (there, alive0) =
        &&_parts (beq ex.camera_direction dir) (not (is_expired now ex)) passes in
      let dir0 : ex.camera_direction ≡ dir = beq→eq ex.camera_direction dir there in
      elim (Bool-cases (beq ex.node_id node)) [
        | inl same ↦ rw same (
          λ k t g alive d.
              v.one_each k k0 t ex g found alive (ground arith) (d ∙ sym dir0)
              ∙ sym key
              ∙ beq→eq ex.node_id node same,
          v,
        )
        | inr apart ↦ rw apart (
          λ k t g alive d.
              let kept : get k m.sessions ≡ some t =
                ground (arith, get-pop ex.node_id k m.sessions, g) in
              let hit : k ≡ ex.node_id =
                v.one_each k k0 t ex kept found alive (ground arith) (d ∙ sym dir0) ∙ sym key in
              ground (arith, get-pop ex.node_id k m.sessions, g, eq→beq ex.node_id k, hit),
          remove_session-IsValid now ex.node_id m v,
        )
      ]

-- A session put over the manager's, where its direction is free for its node.
pub put-IsValid :
    (now : ℕ) (node : String) (s : NodeSession) (m : SessionManager)
    → IsValid now m
    → s.node_id ≡ node
    → ((k : String) (t : NodeSession)
        → get k m.sessions ≡ some t
        → is_expired now t ≡ false
        → t.camera_direction ≡ s.camera_direction
        → k ≡ node)
    → IsValid now (record m { sessions = put node s m.sessions })
put-IsValid now node s m v id free = record {
  dict = put-IsDict node s m.sessions v.dict;
  keyed = λ k t g. elim (look k t g) [
    | inl p ↦ ap (λ x. NodeSession.node_id x) (sym p.1) ∙ id ∙ p.0
    | inr p ↦ v.keyed k t p
  ];
  one_each = λ j k t u gj gk et eu same. elim (look j t gj) [
    | inl p ↦ elim (look k u gk) [
      | inl q ↦ sym p.0 ∙ q.0
      | inr q ↦
          sym p.0
          ∙ sym (free k u q eu (sym same ∙ ap (λ x. NodeSession.camera_direction x) (sym p.1)))
    ]
    | inr p ↦ elim (look k u gk) [
      | inl q ↦ free j t p et (same ∙ ap (λ x. NodeSession.camera_direction x) (sym q.1)) ∙ q.0
      | inr q ↦ v.one_each j k t u p q et eu same
    ]
  ];
}
  where
    look :
        (k : String) (t : NodeSession)
        → get k (put node s m.sessions) ≡ some t
        → ((node ≡ k) × (s ≡ t)) ⊎ (get k m.sessions ≡ some t)
    look k t g = elim (Bool-cases (beq node k)) [
      | inl same ↦
          let here : some s ≡ some t = rw (get-put node k s m.sessions, same) at g in
          inl (beq→eq node k same, cc)
      | inr other ↦ inr (rw (get-put node k s m.sessions, other) at g)
    ]

-- Registering a node keeps the directions of the live sessions apart: the node that held the
-- direction is evicted.
pub create_session-IsValid :
    (now : ℕ) (token node : String) (direction : Option LaneId) (m : SessionManager)
    → IsValid now m
    → IsValid now (create_session now token node direction m).1
unfolding create_session Free
create_session-IsValid now token node direction m v =
    let dir = direction_of direction in
    let (free, v') = evict-Free now node dir m v (find (holds now dir) (values m.sessions)) refl in
    put-IsValid now node (new_session now token node dir m.timeout) _ v' refl free
