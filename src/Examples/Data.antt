-- ===== src/Examples/Data.antt =====
-- The concrete database, cipher, provider and requests that the examples run on.
use e5renew.Prelude.{refl, sym, ◌∙◌, true, none, some, [], ◌∷◌, ◌++◌, arith, leb, length}
use e5renew.Prelude.Int.{pos}
use e5renew.Text.{Bytes, codes, bytes_eq}
use e5renew.Text.Equality.{bytes_eq_iff, bytes_eq_refl}
use e5renew.Base64.{encode, raw_url_encoding}
use e5renew.Failure.{Error, other, ok}
use e5renew.Database.{Db, Collation, UserToken, ApiLog}
use e5renew.Encryption.{Aead}
use e5renew.Encryption.RoundTrip.{IsNonce}
use e5renew.SafeError.{RequestInfo}
use e5renew.Tokens.{Token, Nonces}
use e5renew.Tokens.Texts.{CanEncrypt}
use e5renew.Mail.{World, Outside}
use e5renew.Session.{Session, Claims, Provider, CallbackRequest, empty_session}
use e5renew.Authorization.{Site}

-- A cipher that hides nothing, with nonces of twelve bytes
abbrev pub gcm : Aead
gcm = record {
  nonce_size = 12;
  seal = λ nonce plaintext. plaintext;
  open_sealed = λ nonce data_bytes. ok data_bytes;
  open-seal = λ nonce plaintext. refl;
  overhead = 0;
  length-seal = λ nonce plaintext. omega arith;
  seal-AreBytes = λ nonce plaintext fresh bytes. bytes;
}

-- The collation that compares byte by byte
abbrev pub bytewise : Collation
bytewise = record {
  same = bytes_eq;
  before = λ s t. leb (length s) (length t);
  same_refl = bytes_eq_refl;
  same_sym = λ s t h. (bytes_eq_iff t s).1 (sym ((bytes_eq_iff s t).0 h));
  same_trans = λ s t u h k. (bytes_eq_iff s u).1 ((bytes_eq_iff s t).0 h ∙ (bytes_eq_iff t u).0 k);
}

abbrev pub nonce : Bytes
nonce = codes "twelve bytes"

abbrev pub nonces : Nonces
nonces = record { access = ok nonce; refresh = ok nonce }

abbrev pub ann : Bytes
ann = codes "ann"

abbrev pub bob : Bytes
bob = codes "bob"

abbrev pub token : Token
token = record {
  access_token = codes "at";
  refresh_token = codes "rt";
  expiry = 0;
  token_type = codes "Bearer";
  expires_in = pos 60;
}

-- Bob has a token with two empty texts.
abbrev pub row : UserToken
row = record {
  id = 1;
  user_id = bob;
  access_token = [];
  refresh_token = [];
  expiry = 7;
  token_type = codes "Bearer";
}

abbrev pub entry_row : ApiLog
entry_row = record {
  id = 1;
  user_id = none;
  api_endpoint = codes "users";
  http_method = codes "GET";
  http_status_code = pos 200;
  request_time = 90;
  response_time = 95;
  duration_ms = pos 12;
  request_size = some (pos 0);
  response_size = some (pos 0);
  error_message = none;
  job_type = codes "client_credentials";
  success = true;
}

abbrev pub db : Db
db = record {
  user_tokens = row ∷ [];
  api_logs = entry_row ∷ [];
  next_token_id = 2;
  next_log_id = 2;
  faults = [];
}

abbrev pub down : Error
down = other (codes "down")

abbrev pub info : RequestInfo
info = record { method = codes "GET"; path = codes "/"; remote_addr = []; user_agent = [] }

-- 32 bytes, as the random source gives them
abbrev pub random_bytes : Bytes
random_bytes = codes "0123456789abcdef0123456789abcdef"

abbrev pub claims : Claims
claims = record { name = codes "Ann"; preferred_username = ann; email = ann }

abbrev pub provider : Provider
provider = record {
  auth_code_url = λ state. codes "https://login/" ++ state;
  exchange = λ code. ok token;
  id_token_field = λ t. some (codes "id");
  verify = λ raw. ok raw;
  claims_of = λ id_token. claims;
}

abbrev pub returning : CallbackRequest
returning = record {
  state = encode raw_url_encoding random_bytes;
  code = codes "0123456789";
  oauth_error = [];
  info = info;
}

abbrev pub waiting : Session
waiting = record empty_session { state = some (encode raw_url_encoding random_bytes) }

-- Ann is signed in.
abbrev pub site : Site
site = record {
  session = record empty_session {
    user = some (codes "id");
    token = some token;
    claims = some claims;
  };
  db = db;
}

-- The client works, the wrapped token source gives back the stored token, and the mailbox is empty.
abbrev pub outside : Outside
outside = record {
  new_mail_graph_client = λ user_id. ok tt;
  get_mail_messages = λ user_id credential s. (ok (some (some [])), s);
  oauth2_source = λ user_id t. ok t;
  nonces = λ user_id. nonces;
  start_time = λ user_id. 100;
  end_time = λ user_id. 200;
  rfc3339 = λ t. [];
}

abbrev pub world : World
world = record { db = db; pending = [] }

pub nonce-IsNonce : IsNonce gcm nonce
nonce-IsNonce = record { size = refl; bytes = omega arith }

pub can : CanEncrypt gcm nonces token
can = record {
  nonce_a = nonce;
  nonce_r = nonce;
  access_random = refl;
  refresh_random = refl;
  access_nonce = nonce-IsNonce;
  refresh_nonce = nonce-IsNonce;
  access_bytes = omega arith;
  refresh_bytes = omega arith;
}
