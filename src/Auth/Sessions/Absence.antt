-- ===== src/Auth/Sessions/Absence.antt =====
-- internal/auth/sessions.go: whatever requests do to the store meanwhile, a session that is gone stays gone.
use cb_back.Prelude.Int.{pos}
use cb_back.Prelude.{
  if◌then◌else◌, ◌≤◌, text_eq_refl, AllOf, map, ◌+◌, ◌-◌, ℕ, zero, suc, ◌≡◌, refl, ap, ◌∙◌, false,
  Option, none, some, List, [], ◌∷◌, ◌++◌, Text, text_eq, ltb, leb, length, null, arith, inl, inr,
  Bool-cases, Option-cases,
}
use cb_back.Prelude.Strings.{among}
use cb_back.Prelude.Results.{Result, done, failed, Result-cases}
use cb_back.Prelude.Stateful.{resume_keeps}
use cb_back.Auth.Redis.{expire, s_add, set, Error, Command, del, s_rem, written, written_all}
use cb_back.Auth.Sessions.{
  redeem_read, redeem_ws_ticket, revocation, touch_granularity, Session, Store, read, session_key,
  ticket_key, user_index, revoke_by_id, find_read, find, touch, revoke_read, revoke, others, kept,
  keep_id, revoke_listed, revoke_all_for_user, oldest, drop_entry, evict_oldest, survey,
  trim_sessions, new_session, storing, create, issue_ws_ticket, max_sessions,
}
use cb_back.Auth.Sessions.Revocation.{IsGone}

-- The calls of a store; each has the arguments of the operation of its
-- name, and the tokens are those that were drawn.
pub data Call : Type 0 where
  finds : Text → ℕ → Call
  touches : Session → ℕ → Call
  creates : Result Error Text → Text → Text → Text → ℕ → Call
  revokes : Text → Call
  revokes_all : Text → Text → Call
  issues_ticket : Result Error Text → Text → Call
  redeems_ticket : Text → Call

module _ (st : Store) where
  open st use {redis, hash_token, marshal, unmarshal}
  open redis use {State, value, get, s_members, exec, exec_any, exec_lem}

  -- The state after a call, however it comes out.
  unfoldable pub after_call : Call → State → State
  after_call (finds token now) s = (find st token now s).1
  after_call (touches sess now) s = (touch st sess now s).1
  after_call (creates token user ip agent now) s = (create st token user ip agent now s).1
  after_call (revokes token) s = (revoke st token s).1
  after_call (revokes_all user except) s = (revoke_all_for_user st user except s).1
  after_call (issues_ticket ticket user) s = (issue_ws_ticket st ticket user s).1
  after_call (redeems_ticket ticket) s = (redeem_ws_ticket st ticket s).1

  unfoldable pub after_calls : List Call → State → State
  after_calls [] s = s
  after_calls (c ∷ cs) s = after_calls cs (after_call c s)

  -- The call does not touch the session of the id, and does not create one whose token has this hash.
  abbrev pub Spares : Text → Call → Type 0
  Spares id (touches sess now) = text_eq sess.id id ≡ false
  Spares id (creates (done token) user ip agent now) = text_eq (hash_token token) id ≡ false
  Spares id other = Unit {0}

  module _ (id : Text) where
    exec-IsGone :
        (cs : List Command) (s : State)
        → written_all cs (session_key id) none ≡ none
        → IsGone st id s
        → IsGone st id (exec cs s).1
    exec-IsGone cs s n g = elim (exec_any cs s (session_key id)) [
      | inl p ↦ p ∙ ap (written_all cs (session_key id)) g ∙ n
      | inr p ↦ p ∙ g
    ]

    del-absent : (keys : List Text) → written (del keys) (session_key id) none ≡ none
    unfolding written
    del-absent keys = elim (Bool-cases (among keys (session_key id))) [
      | inl p ↦ rw p refl
      | inr p ↦ rw p refl
    ]

    dels_absent :
        (keys : List Text) (cs : List Command)
        → written_all cs (session_key id) none ≡ none
        → written_all (del keys ∷ cs) (session_key id) none ≡ none
    unfolding written_all
    dels_absent keys cs h = ap (written_all cs (session_key id)) (del-absent keys) ∙ h

    revoke_by_id_keeps :
        (user id' : Text) (s : State) → IsGone st id s → IsGone st id (revoke_by_id st user id' s).1
    unfolding revoke_by_id written_all written
    revoke_by_id_keeps user id' s g = elim (Bool-cases (null user)) [
      | inl p ↦ rw (p, revoke_by_id) (exec-IsGone _ s (dels_absent _ [] refl) g)
      | inr p ↦
          rw (p, revoke_by_id)
            (exec-IsGone _ s
              (dels_absent (session_key id' ∷ []) (s_rem (user_index user) (id' ∷ []) ∷ []) refl) g)
    ]

    find_keeps :
        (id' : Text) (now : ℕ) (raw : Option Text) (s : State)
        → IsGone st id s
        → IsGone st id (find_read st id' now raw s).1
    unfolding find_read
    find_keeps id' now none s g = g
    find_keeps id' now (some payload) s g = elim (Option-cases (unmarshal payload)) [
      | inl p ↦ rw (p, find_read) g
      | inr (sess, p) ↦ elim (Bool-cases (ltb sess.expires_at now)) [
        | inl q ↦
            rw (p, q, find_read)
              (resume_keeps (IsGone st id) _ (revoke_by_id st sess.user_id id' s)
                (revoke_by_id_keeps sess.user_id id' s g) (λ a s' g'. g'))
        | inr q ↦ rw (p, q, find_read) g
      ]
    ]

    revoke_keeps :
        (id' : Text) (raw : Option Text) (s : State)
        → IsGone st id s
        → IsGone st id (revoke_read st id' raw s).1
    unfolding revoke_read written_all
    revoke_keeps id' none s g = g
    revoke_keeps id' (some payload) s g = elim (Option-cases (unmarshal payload)) [
      | inl p ↦ rw (p, revoke_read) (exec-IsGone _ s (dels_absent _ [] refl) g)
      | inr (sess, p) ↦ rw (p, revoke_read) (revoke_by_id_keeps sess.user_id id' s g)
    ]

    evict_keeps :
        (excess : ℕ) (live : List (Text × ℕ)) (s : State)
        → IsGone st id s
        → IsGone st id (evict_oldest st excess live s).1
    unfolding evict_oldest written_all
    evict_keeps zero live s g = g
    evict_keeps (suc excess) [] s g = g
    evict_keeps (suc excess) (e ∷ es) s g =
        resume_keeps (IsGone st id) _ (exec (del (session_key (oldest e es).0 ∷ []) ∷ []) s)
          (exec-IsGone _ s (dels_absent _ [] refl) g)
          (λ a s' g'.
            resume_keeps (IsGone st id) _
              (evict_oldest st excess (drop_entry (oldest e es).0 (e ∷ es)) s')
              (evict_keeps excess (drop_entry (oldest e es).0 (e ∷ es)) s' g') (λ ids s'' g''. g''))

    trim_keeps : (user : Text) (s : State) → IsGone st id s → IsGone st id (trim_sessions st user s)
    unfolding trim_sessions written_all written
    trim_keeps user s g = elim (Result-cases (s_members (user_index user) s)) [
      | inr (e, p) ↦ rw (p, trim_sessions) g
      | inl (ids, p) ↦ elim (Bool-cases (leb (length ids) max_sessions)) [
        | inl q ↦ rw (p, q, trim_sessions) g
        | inr q ↦ elim (Option-cases (survey st ids s)) [
          | inl r ↦ rw (p, q, r, trim_sessions) g
          | inr ((live, stale), r) ↦
              let evicted = evict_oldest st (length live - max_sessions) live s in
              let g' : IsGone st id evicted.1 = evict_keeps (length live - max_sessions) live s g in
              elim (Result-cases evicted.0) [
                | inr (e, t) ↦ rw (p, q, r, t, trim_sessions) g'
                | inl (ids', t) ↦ elim (Bool-cases (null (stale ++ ids'))) [
                  | inl u ↦ rw (p, q, r, t, u, trim_sessions) g'
                  | inr u ↦
                      rw (p, q, r, t, u, trim_sessions)
                        (exec-IsGone (s_rem (user_index user) (stale ++ ids') ∷ []) evicted.1 refl
                          g')
                ]
              ]
        ]
      ]
    ]

    -- Another session's record is written under another key.
    touch_keeps :
        (sess : Session) (now : ℕ) (s : State)
        → text_eq sess.id id ≡ false
        → IsGone st id s
        → IsGone st id (touch st sess now s).1
    unfolding touch written_all written text_eq
    touch_keeps sess now s d g =
        elim (Bool-cases (ltb now (sess.last_seen_at + touch_granularity))) [
          | inl p ↦ rw (p, touch) g
          | inr p ↦ elim (Option-cases (marshal (record sess { last_seen_at = now }))) [
            | inl q ↦ rw (p, q, touch) g
            | inr (payload, q) ↦ rw (p, q, touch) (exec-IsGone _ s (rw d refl) g)
          ]
        ]

    create_keeps :
        (token user ip agent : Text) (now : ℕ) (s : State)
        → text_eq (hash_token token) id ≡ false
        → IsGone st id s
        → IsGone st id (create st (done token) user ip agent now s).1
    unfolding create written_all written text_eq
    create_keeps token user ip agent now s d g =
        let sess : Session = new_session st token user ip agent now in
        elim (Option-cases (marshal sess)) [
          | inl p ↦ rw (p, create) g
          | inr (payload, p) ↦
              rw (p, create)
                (resume_keeps (IsGone st id) _ (exec (storing st sess payload now) s)
                  (exec-IsGone (storing st sess payload now) s (rw d refl) g)
                  (λ a s' g'. trim_keeps user s' g'))
        ]

    remaining_absent :
        (user : Text) (remaining : List Text)
        → written_all
            (del (user_index user ∷ [])
              ∷ (if null remaining
                  then []
                  else s_add (user_index user) remaining
                    ∷ expire (user_index user) (pos st.absolute_ttl)
                    ∷ []))
            (session_key id)
            none
          ≡ none
    unfolding written_all written
    remaining_absent user remaining = elim (Bool-cases (null remaining)) [
      | inl p ↦ rw p (dels_absent (user_index user ∷ []) [] refl)
      | inr p ↦ rw p (
          dels_absent (user_index user ∷ [])
            (s_add (user_index user) remaining
              ∷ expire (user_index user) (pos st.absolute_ttl)
              ∷ [])
            refl)
    ]

    revocation_absent :
        (user : Text) (keys remaining : List Text)
        → written_all (revocation st user keys remaining) (session_key id) none ≡ none
    revocation_absent user keys remaining = elim (Bool-cases (null keys)) [
      | inl p ↦ rw p (remaining_absent user remaining)
      | inr p ↦ rw p (dels_absent keys _ (remaining_absent user remaining))
    ]

    listed_keeps :
        (user keep : Text) (ids : List Text) (s : State)
        → IsGone st id s
        → IsGone st id (revoke_listed st user keep ids s).1
    unfolding revoke_listed
    listed_keeps user keep ids s g =
        let keys = map session_key (others keep ids) in
        resume_keeps (IsGone st id) _ (exec (revocation st user keys (kept keep ids)) s)
          (exec-IsGone (revocation st user keys (kept keep ids)) s
            (revocation_absent user keys (kept keep ids)) g)
          (λ a s' g'. g')

    ticket_keeps :
        (ticket user : Text) (s : State)
        → IsGone st id s
        → IsGone st id (issue_ws_ticket st (done ticket) user s).1
    unfolding issue_ws_ticket written_all written text_eq
    ticket_keeps ticket user s g =
        let cs = set (ticket_key (hash_token ticket)) user (pos st.ticket_ttl) ∷ [] in
        resume_keeps (IsGone st id) _ (exec cs s) (exec-IsGone cs s refl g) (λ a s' g'. g')

    redeem_keeps :
        (user : Option Text) (s : State) → IsGone st id s → IsGone st id (redeem_read st user s).1
    redeem_keeps none s g = g
    redeem_keeps (some user) s g = g

    call_keeps :
        (c : Call) (s : State) → Spares id c → IsGone st id s → IsGone st id (after_call c s)
    unfolding after_call find revoke revoke_all_for_user create issue_ws_ticket redeem_ws_ticket
        text_eq
    call_keeps (finds token now) s d g =
        resume_keeps (IsGone st id) _ (read st (get (session_key (hash_token token))) s) g
          (λ raw s' g'. find_keeps (hash_token token) now raw s' g')
    call_keeps (touches sess now) s d g = touch_keeps sess now s d g
    call_keeps (creates (failed e) user ip agent now) s d g = g
    call_keeps (creates (done token) user ip agent now) s d g =
        create_keeps token user ip agent now s d g
    call_keeps (revokes token) s d g =
        resume_keeps (IsGone st id) _ (read st (get (session_key (hash_token token))) s) g
          (λ raw s' g'. revoke_keeps (hash_token token) raw s' g')
    call_keeps (revokes_all user except) s d g =
        resume_keeps (IsGone st id) _ (read st (s_members (user_index user)) s) g
          (λ ids s' g'. listed_keeps user (keep_id st except) ids s' g')
    call_keeps (issues_ticket (failed e) user) s d g = g
    call_keeps (issues_ticket (done ticket) user) s d g = ticket_keeps ticket user s g
    call_keeps (redeems_ticket ticket) s d g =
        let key = ticket_key (hash_token ticket) in
        resume_keeps (IsGone st id) _ (redis.get_del key s)
          (redis.get_del_other key (session_key id) s refl ∙ g)
          (λ user s' g'. redeem_keeps user s' g')

    pub calls_keep :
        (cs : List Call) (s : State)
        → AllOf (Spares id) cs
        → IsGone st id s
        → IsGone st id (after_calls cs s)
    unfolding after_calls
    calls_keep [] s d g = g
    calls_keep (c ∷ cs) s (d, ds) g = calls_keep cs (after_call c s) ds (call_keeps c s d g)

  -- A Touch that is due stores its session again, also where it was revoked after the request had looked
  -- it up.
  pub touch_stores :
      (sess : Session) (now : ℕ) (s : State) (payload : Text)
      → sess.last_seen_at + touch_granularity ≤ now
      → marshal (record sess { last_seen_at = now }) ≡ some payload
      → (touch st sess now s).0 ≡ done tt
      → value (touch st sess now s).1 (session_key sess.id) ≡ some payload
  unfolding touch written_all written
  touch_stores sess now s payload due m =
      let q : ltb now (sess.last_seen_at + touch_granularity) ≡ false = ground (arith, due) in
      rw (q, m, touch)
        λ h. exec_lem _ s (session_key sess.id) h ∙ rw (text_eq_refl (session_key sess.id)) refl
