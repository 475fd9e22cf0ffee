-- ===== src/Store/Access.antt =====
-- internal/store/tokens.go and sessions.go: API tokens, and the sessions that stand for one. The tables'
-- keys, UNIQUE columns and references refuse a statement with an error.
pub mod Revoked
use Prim.Native.String.{◌++◌}
use restorelab.Prelude.{
  ℕ, Bool, true, false, not, ◌&&◌, ◌||◌, String, Option, none, some, map_option, List, [], ◌∷◌, ltb,
  ◌==◌, str_eq, if◌then◌else◌,
}
use restorelab.Prelude.{◌++◌ as ◌+++◌}
use restorelab.Store.Row.{is_null}
use restorelab.Store.Table.{update_where, count_where, select_where, find_where, any_where}

pub record ApiToken : Type 0 where
  pub id : String
  pub name : String
  pub hash : String
  pub created_at : ℕ
  pub scopes : List String

-- A row of the table `api_tokens`.
pub record TokenRow : Type 0 where
  pub id : String
  pub name : String
  pub hash : String
  pub created_at : ℕ
  pub last_used_at : Option ℕ
  pub revoked_at : Option ℕ
  pub scopes : String

pub record Session : Type 0 where
  pub id : String
  pub hash : String
  pub token_id : String
  pub created_at : ℕ
  pub expires_at : ℕ
  pub user_agent : String

-- A row of the table `api_sessions`.
pub record SessionRow : Type 0 where
  pub id : String
  pub hash : String
  pub token_id : String
  pub created_at : ℕ
  pub expires_at : ℕ
  pub user_agent : Option String

pub record Credentials : Type 0 where
  pub tokens : List TokenRow
  pub sessions : List SessionRow

pub data AccessError : Type 0 where
  no_hash constraint_violation err_not_found : AccessError

-- `strings.Join`
abbrev joined_with : String → List String → String
joined_with sep [] = ""
joined_with sep (s ∷ []) = s
joined_with sep (s ∷ t ∷ ss) = s ++ (sep ++ joined_with sep (t ∷ ss))

abbrev pub encode_scopes : List String → String
encode_scopes [] = "read"
encode_scopes (s ∷ ss) = joined_with "," (s ∷ ss)

abbrev pub inserted_token : ApiToken → TokenRow
inserted_token t = record {
  id = t.id;
  name = t.name;
  hash = t.hash;
  created_at = t.created_at;
  last_used_at = none;
  revoked_at = none;
  scopes = encode_scopes t.scopes;
}

abbrev pub has_token_id : String → TokenRow → Bool
has_token_id id r = str_eq r.id id

-- A row that shares a key of the token.
abbrev pub same_token : ApiToken → TokenRow → Bool
same_token t r = str_eq r.id t.id || (str_eq r.name t.name || str_eq r.hash t.hash)

-- `CreateToken`
unfoldable pub create_token : ApiToken → Credentials → Option AccessError × Credentials
create_token t db =
    if str_eq t.hash ""
    then (some no_hash, db)
    else if any_where (same_token t) db.tokens
    then (some constraint_violation, db)
    else (none, record db { tokens = db.tokens +++ inserted_token t ∷ [] })

abbrev pub is_live : TokenRow → Bool
is_live r = is_null r.revoked_at

-- `TokenByHash`, before `scanToken` reads its columns; `none` is ErrNotFound.
unfoldable pub token_by_hash : String → Credentials → Option TokenRow
token_by_hash hash db = find_where (λ r. str_eq r.hash hash && is_live r) db.tokens

abbrev pub is_revoked_by : String → TokenRow → Bool
is_revoked_by name r = str_eq r.name name && is_live r

abbrev pub revoked : ℕ → TokenRow → TokenRow
revoked at r = record r { revoked_at = some at }

-- `RevokeToken`
unfoldable pub revoke_token : String → ℕ → Credentials → Option AccessError × Credentials
revoke_token name at db = (
  if count_where (is_revoked_by name) db.tokens == 0 then some err_not_found else none,
  record db { tokens = update_where (is_revoked_by name) (revoked at) db.tokens },
)

abbrev pub touched : ℕ → TokenRow → TokenRow
touched at r = record r { last_used_at = some at }

-- `TouchToken`
unfoldable pub touch_token : String → ℕ → Credentials → Credentials
touch_token id at db = record db { tokens = update_where (has_token_id id) (touched at) db.tokens }

abbrev pub unexpired : ℕ → SessionRow → Bool
unexpired now s = ltb now s.expires_at

-- `DeleteExpiredSessions`
unfoldable pub delete_expired_sessions : ℕ → Credentials → Credentials
delete_expired_sessions now db = record db { sessions = select_where (unexpired now) db.sessions }

-- `DeleteSession`
unfoldable pub delete_session : String → Credentials → Credentials
delete_session hash db = record db {
  sessions = select_where (λ s. not (str_eq s.hash hash)) db.sessions;
}

-- `bounded` is the cut of a text to 256 bytes of valid UTF-8.
abbrev pub encode_user_agent : (String → String) → String → Option String
encode_user_agent bounded ua = if str_eq ua "" then none else some (bounded ua)

abbrev pub inserted_session : (String → String) → Session → SessionRow
inserted_session bounded s = record {
  id = s.id;
  hash = s.hash;
  token_id = s.token_id;
  created_at = s.created_at;
  expires_at = s.expires_at;
  user_agent = encode_user_agent bounded s.user_agent;
}

abbrev pub same_session : Session → SessionRow → Bool
same_session s r = str_eq r.id s.id || str_eq r.hash s.hash

-- `CreateSession`: one transaction, which an error rolls back.
unfoldable pub create_session :
    (String → String) → Session → ℕ → Credentials → Option AccessError × Credentials
create_session bounded s now db =
    let swept = select_where (unexpired now) db.sessions in
    if str_eq s.hash ""
    then (some no_hash, db)
    else if any_where (same_session s) swept || not (any_where (has_token_id s.token_id) db.tokens)
    then (some constraint_violation, db)
    else (none, record db { sessions = swept +++ inserted_session bounded s ∷ [] })

abbrev pub or_else : {A : Type 0} → Option A → Option A → Option A
or_else none o = o
or_else (some a) o = some a

abbrev pub joined : List TokenRow → SessionRow → Option (SessionRow × TokenRow)
joined tokens s =
    map_option (λ t. (s, t)) (find_where (λ t. has_token_id s.token_id t && is_live t) tokens)

unfoldable pub first_joined :
    List TokenRow → String → ℕ → List SessionRow → Option (SessionRow × TokenRow)
first_joined tokens hash now [] = none
first_joined tokens hash now (s ∷ ss) =
    let rest = first_joined tokens hash now ss in
    if str_eq s.hash hash && unexpired now s then or_else (joined tokens s) rest else rest

-- `SessionByHash`, before its columns are read; `none` is ErrNotFound.
unfoldable pub session_by_hash : String → ℕ → Credentials → Option (SessionRow × TokenRow)
session_by_hash hash now db = first_joined db.tokens hash now db.sessions
