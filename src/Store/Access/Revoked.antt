-- ===== src/Store/Access/Revoked.antt =====
-- What a revoked token of internal/store/tokens.go opens, by itself or by the sessions that stand for it.
use mathlib.Core.Bool.{false≢true}
use restorelab.Prelude.{
  ℕ, ◌≡◌, refl, sym, ap, subst, ◌∙◌, Bool, true, false, not, ◌&&◌, ◌||◌, String, Option, none, some,
  map_option, List, [], ◌∷◌, ◌++◌, All, All-append, str_eq, eq_iff, Bool-cases, inl, inr,
  if◌then◌else◌,
}
use restorelab.Store.Table.{update_where, select_where, find_where, any_where}
use restorelab.Store.Table.Laws.{
  All-update_where, any_where-update_where, any_where-append, any_where-weaken,
}
use restorelab.Store.Access.{
  ApiToken, TokenRow, Session, SessionRow, Credentials, AccessError, no_hash, constraint_violation,
  inserted_token, has_token_id, same_token, create_token, is_live, token_by_hash, is_revoked_by,
  revoked, revoke_token, touched, touch_token, unexpired, delete_expired_sessions, delete_session,
  inserted_session, same_session, create_session, or_else, joined, first_joined, session_by_hash,
}

-- A call of the store that writes tokens or sessions.
pub data AccessWrite : Type 0 where
  creating_token : ApiToken → AccessWrite
  revoking : String → ℕ → AccessWrite
  touching : String → ℕ → AccessWrite
  creating_session : Session → ℕ → AccessWrite
  deleting_session : String → AccessWrite
  sweeping : ℕ → AccessWrite

abbrev pub write_access : (String → String) → AccessWrite → Credentials → Credentials
write_access bounded (creating_token t) db = (create_token t db).1
write_access bounded (revoking name at) db = (revoke_token name at db).1
write_access bounded (touching id at) db = touch_token id at db
write_access bounded (creating_session s now) db = (create_session bounded s now db).1
write_access bounded (deleting_session hash) db = delete_session hash db
write_access bounded (sweeping now) db = delete_expired_sessions now db

abbrev pub write_accesses : (String → String) → List AccessWrite → Credentials → Credentials
write_accesses bounded [] db = db
write_accesses bounded (w ∷ ws) db = write_accesses bounded ws (write_access bounded w db)

abbrev pub opened_token : String → Option TokenRow → Bool
opened_token id none = false
opened_token id (some r) = has_token_id id r

abbrev pub opened_session : String → Option (SessionRow × TokenRow) → Bool
opened_session id none = false
opened_session id (some (s, r)) = has_token_id id r

-- The rows of an id have the name.
abbrev pub IsNamed : String → String → TokenRow → Type 0
IsNamed id name r = has_token_id id r ≡ true → r.name ≡ name

abbrev IsDead : String → TokenRow → Type 0
IsDead id r = has_token_id id r ≡ true → is_live r ≡ false

record Withdrawn (id : String) (tokens : List TokenRow) : Type 0 where
  dead : All (IsDead id) tokens
  present : any_where (has_token_id id) tokens ≡ true

module _ (id : String) where
  revoked-IsDead :
      (name : String) (at : ℕ) (ts : List TokenRow)
      → All (IsNamed id name) ts
      → All (IsDead id) (update_where (is_revoked_by name) (revoked at) ts)
  unfolding update_where
  revoked-IsDead name at [] h = tt
  revoked-IsDead name at (r ∷ ts) h = (
    elim (Bool-cases (is_revoked_by name r)) [
      | inl b ↦ rw b (λ _. refl)
      | inr n ↦ rw n (λ c. sym (ap (λ x. x && is_live r) ((eq_iff r.name name).1 (h.0 c))) ∙ n)
    ],
    revoked-IsDead name at ts h.1,
  )

  live-other :
      (q : TokenRow → Bool) (ts : List TokenRow)
      → All (IsDead id) ts
      → opened_token id (find_where (λ r. q r && is_live r) ts) ≡ false
  unfolding find_where
  live-other q [] h = refl
  live-other q (r ∷ ts) h =
      split (find_where (λ x. q x && is_live x) ts) (q r) (has_token_id id r) (is_live r) refl h.0
        (live-other q ts h.1)
    where
      split :
          (o : Option TokenRow) (b c l : Bool)
          → has_token_id id r ≡ c
          → (c ≡ true → l ≡ false)
          → opened_token id o ≡ false
          → opened_token id (if b && l then some r else o) ≡ false
      split o true true true e f k = absurd (false≢true (sym (f refl)))
      split o true false true e f k = e
      split o true c false e f k = k
      split o false c l e f k = k

  joined-other :
      (ts : List TokenRow) (s : SessionRow)
      → All (IsDead id) ts
      → opened_session id (joined ts s) ≡ false
  joined-other ts s h =
      carry (find_where (λ t. has_token_id s.token_id t && is_live t) ts)
        (live-other (has_token_id s.token_id) ts h)
    where
      carry :
          (o : Option TokenRow)
          → opened_token id o ≡ false
          → opened_session id (map_option (λ t. (s, t)) o) ≡ false
      carry none k = refl
      carry (some r) k = k

  first_joined-other :
      (ts : List TokenRow) (hash : String) (now : ℕ) (ss : List SessionRow)
      → All (IsDead id) ts
      → opened_session id (first_joined ts hash now ss) ≡ false
  unfolding first_joined
  first_joined-other ts hash now [] h = refl
  first_joined-other ts hash now (s ∷ ss) h =
      split (first_joined ts hash now ss) (str_eq s.hash hash && unexpired now s) (joined ts s)
        (joined-other ts s h) (first_joined-other ts hash now ss h)
    where
      split :
          (o : Option (SessionRow × TokenRow)) (b : Bool) (j : Option (SessionRow × TokenRow))
          → opened_session id j ≡ false
          → opened_session id o ≡ false
          → opened_session id (if b then or_else j o else o) ≡ false
      split o true none k l = l
      split o true (some x) k l = k
      split o false j k l = l

  create_token-Withdrawn :
      (t : ApiToken) (db : Credentials)
      → Withdrawn id db.tokens
      → Withdrawn id (create_token t db).1.tokens
  unfolding create_token
  create_token-Withdrawn t db k = split (str_eq t.hash "") (any_where (same_token t) db.tokens) refl
    where
      is_new : any_where (same_token t) db.tokens ≡ false → str_eq t.id id ≡ true → ⊥
      is_new e b = false≢true (
          sym e
          ∙ any_where-weaken (has_token_id id) (same_token t) db.tokens
              (λ r h. rw ((eq_iff t.id id).0 b, h) refl) k.present)

      split :
          (b c : Bool)
          → any_where (same_token t) db.tokens ≡ c
          → (let o : Option AccessError × Credentials =
                if b
                then (some no_hash, db)
                else if c
                then (some constraint_violation, db)
                else (none, record db { tokens = db.tokens ++ inserted_token t ∷ [] }) in
              Withdrawn id o.1.tokens)
      split true c e = k
      split false true e = k
      split false false e = record {
        dead =
            All-append (IsDead id) db.tokens (inserted_token t ∷ []) k.dead
              ((λ b. absurd (is_new e b)), tt);
        present = any_where-append (has_token_id id) db.tokens (inserted_token t ∷ []) k.present;
      }

  updated-Withdrawn :
      (p : TokenRow → Bool) (f : TokenRow → TokenRow) (ts : List TokenRow)
      → ((r : TokenRow) → IsDead id r → IsDead id (f r))
      → ((r : TokenRow) → has_token_id id (f r) ≡ has_token_id id r)
      → Withdrawn id ts
      → Withdrawn id (update_where p f ts)
  updated-Withdrawn p f ts keeps same k = record {
    dead = All-update_where (IsDead id) p f ts (λ r _. keeps r) k.dead;
    present = any_where-update_where (has_token_id id) p f ts same ∙ k.present;
  }

  create_session-tokens :
      (bounded : String → String) (s : Session) (now : ℕ) (db : Credentials)
      → (create_session bounded s now db).1.tokens ≡ db.tokens
  unfolding create_session
  create_session-tokens bounded s now db =
      split (str_eq s.hash "")
        (any_where (same_session s) swept || not (any_where (has_token_id s.token_id) db.tokens))
    where
      swept : List SessionRow
      swept = select_where (unexpired now) db.sessions

      split :
          (b c : Bool)
          → (let o : Option AccessError × Credentials =
                if b
                then (some no_hash, db)
                else if c
                then (some constraint_violation, db)
                else (none, record db { sessions = swept ++ inserted_session bounded s ∷ [] }) in
              o.1.tokens ≡ db.tokens)
      split true c = refl
      split false true = refl
      split false false = refl

  write_access-Withdrawn :
      (bounded : String → String) (w : AccessWrite) (db : Credentials)
      → Withdrawn id db.tokens
      → Withdrawn id (write_access bounded w db).tokens
  unfolding revoke_token touch_token delete_session delete_expired_sessions
  write_access-Withdrawn bounded (creating_token t) db k = create_token-Withdrawn t db k
  write_access-Withdrawn bounded (revoking name at) db k =
      updated-Withdrawn (is_revoked_by name) (revoked at) db.tokens (λ r h b. refl) (λ r. refl) k
  write_access-Withdrawn bounded (touching i at) db k =
      updated-Withdrawn (has_token_id i) (touched at) db.tokens (λ r h. h) (λ r. refl) k
  write_access-Withdrawn bounded (creating_session s now) db k =
      subst (Withdrawn id) (sym (create_session-tokens bounded s now db)) k
  write_access-Withdrawn bounded (deleting_session hash) db k = k
  write_access-Withdrawn bounded (sweeping now) db k = k

  write_accesses-Withdrawn :
      (bounded : String → String) (ws : List AccessWrite) (db : Credentials)
      → Withdrawn id db.tokens
      → Withdrawn id (write_accesses bounded ws db).tokens
  write_accesses-Withdrawn bounded [] db k = k
  write_accesses-Withdrawn bounded (w ∷ ws) db k =
      write_accesses-Withdrawn bounded ws _ (write_access-Withdrawn bounded w db k)

-- Behind RevokeToken, and whatever is written later, neither a token's hash nor a session's resolves to
-- the token of that name any more, at any time.
pub revoke_token-lasting :
    (bounded : String → String) (id name : String) (at : ℕ) (db : Credentials)
    (ws : List AccessWrite) (hash : String) (now : ℕ)
    → All (IsNamed id name) db.tokens
    → any_where (has_token_id id) db.tokens ≡ true
    → (opened_token id (token_by_hash hash (write_accesses bounded ws (revoke_token name at db).1))
        ≡ false)
      × (opened_session id
            (session_by_hash hash now (write_accesses bounded ws (revoke_token name at db).1))
          ≡ false)
unfolding token_by_hash session_by_hash revoke_token
revoke_token-lasting bounded id name at db ws hash now named stored =
    let gone = write_accesses-Withdrawn id bounded ws (revoke_token name at db).1 (record {
      dead = revoked-IsDead id name at db.tokens named;
      present =
          any_where-update_where (has_token_id id) (is_revoked_by name) (revoked at) db.tokens
            (λ r. refl)
          ∙ stored;
    }) in
    (
      live-other id (λ r. str_eq r.hash hash) _ gone.dead,
      first_joined-other id _ hash now _ gone.dead,
    )
