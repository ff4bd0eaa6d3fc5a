-- ===== src/Pairing.antt =====
-- packages/pair-sdk/src/web.ts and naming.ts: what the pairing client computes around its requests.
-- Base64, Ed25519, SHA-256 and UTF-8 are libraries of the platform: a record of functions.
pub mod IceServers
use Prim.Native.Nat.{ℕ, zero, suc, ◌+◌, ◌*◌, ◌-◌, ◌/◌, ◌%◌}
use Prim.Native.Char.{code}
use Prim.Native.String.{String, count, ◌++◌}
use mathlib.Core.Bool.{Bool, true, false, not, ◌&&◌, ◌||◌}
use mathlib.Core.Option.{Option, none, some}
use mathlib.Core.List
use mathlib.Core.List.{List}
use text.Mathlib.Text.{◌==◌}
use openclawapp.Base.{if◌then◌else◌, eqb, leb, is_empty, is_space, trim}
use openclawapp.Base.Values.{
  Num, Value, str, num, finite, bool, Fields, Runtime, Result, ok, err, member, optional_member,
  trimmed_text, text_of, truthy,
}
use openclawapp.Crdt.Envelope.{or_text}
use openclawapp.Chat.{EntityType, number_or_zero}
use openclawapp.Peer.{entity_text}

-- What the client takes from its libraries.
pub record Crypto : Type 0 where
  pub decode_base64 : String → Option (List ℕ)
  pub verify_detached : (text signature public_key : List ℕ) → Bool
  pub utf8 : String → List ℕ
  pub sha256 : List ℕ → List ℕ
  pub public_key_length : ℕ
  pub signature_length : ℕ

unfoldable pub identity_storage_key : EntityType → String → String
identity_storage_key entity_type entity_id =
    "openclaw.pair.v2.identity." ++ (entity_text entity_type ++ ("." ++ entity_id))

-- `String(value || '').trim()`, decoded, for a value that is a text.
unfoldable pub base64_url_to_bytes : Crypto → String → Result (List ℕ)
base64_url_to_bytes crypto value =
    if is_empty (trim value)
    then err "base64 内容不能为空"
    else elim (crypto.decode_base64 (trim value)) [
      | none ↦ err "invalid base64"
      | some bytes ↦ ok bytes
    ]

abbrev bytes_length : List ℕ → ℕ
bytes_length List.[] = 0
bytes_length (List.◌∷◌ b bs) = suc (bytes_length bs)

-- `verifyPairV2Text`
unfoldable pub verify_text : Crypto → (public_key text signature : String) → Result Bool
unfolding base64_url_to_bytes
verify_text crypto public_key text signature = elim (base64_url_to_bytes crypto public_key) [
  | err e ↦ err e
  | ok key ↦ elim (base64_url_to_bytes crypto signature) [
    | err e ↦ err e
    | ok bytes ↦
        if not (eqb (bytes_length key) crypto.public_key_length)
          || not (eqb (bytes_length bytes) crypto.signature_length)
        then ok false
        else ok (crypto.verify_detached (crypto.utf8 text) bytes key)
  ]
]

pub record Challenge : Type 0 where
  pub challenge_id : String
  pub entity_type : String
  pub entity_id : String
  pub public_key : String
  pub nonce : String

unfoldable pub login_message : Challenge → String
login_message c =
    "openclaw-v2-auth-login\n"
    ++ (c.challenge_id
        ++ ("\n"
            ++ (c.nonce
                ++ ("\n" ++ (c.entity_type ++ ("\n" ++ (c.entity_id ++ ("\n" ++ c.public_key))))))))

-- `joinBytes`
abbrev join_bytes : List (List ℕ) → List ℕ
join_bytes List.[] = List.[]
join_bytes (List.◌∷◌ p ps) = List.◌++◌ p (join_bytes ps)

-- The n-th byte; there is always one, as a hash has 32.
abbrev byte_at : ℕ → List ℕ → ℕ
byte_at n List.[] = 0
byte_at zero (List.◌∷◌ b bs) = b
byte_at (suc n) (List.◌∷◌ b bs) = byte_at n bs

-- `((bytes[0] << 16) | (bytes[1] << 8) | bytes[2]) >>> 4` for three bytes, modulo 1,000,000.
unfoldable pub safety_value : List ℕ → ℕ
safety_value bytes =
    (byte_at 0 bytes * 65536 + byte_at 1 bytes * 256 + byte_at 2 bytes) / 16 % 1000000

-- `text.padStart(width, '0')`
abbrev pad_start : ℕ → String → String
pad_start width s = zeros (width - count s) ++ s
  where
    zeros : ℕ → String
    zeros zero = ""
    zeros (suc n) = "0" ++ zeros n

unfoldable pub safety_code :
    Runtime → Crypto → (device_key mobile_key session_id nonce : String) → String
unfolding safety_value
safety_code rt crypto device_key mobile_key session_id nonce =
    let bytes = crypto.sha256 (
      join_bytes (
        List.◌∷◌ (crypto.utf8 device_key) (
          List.◌∷◌ (crypto.utf8 mobile_key)
            (List.◌∷◌ (crypto.utf8 session_id) (List.◌∷◌ (crypto.utf8 nonce) List.[]))))) in
    pad_start 6 (rt.number_text (finite false (safety_value bytes) 0))

-- `value.replace(/\s+/g, ' ')`; `in_space` is whether the last character was a space.
abbrev single_spaces : Bool → String → String
single_spaces in_space String.[] = ""
single_spaces in_space (String.◌∷◌ c s) =
    let space = is_space (code c) in
    let rest = single_spaces space s in
    if space then (if in_space then rest else " " ++ rest) else String.◌∷◌ c rest

abbrev is_alphanumeric : ℕ → Bool
is_alphanumeric c = (leb 48 c && leb c 57) || ((leb 65 c && leb c 90) || (leb 97 c && leb c 122))

-- `value.replace(/_/g, '').replace(/[^a-zA-Z0-9]/g, '')`
abbrev only_alphanumeric : String → String
only_alphanumeric String.[] = ""
only_alphanumeric (String.◌∷◌ c s) =
    if is_alphanumeric (code c) then String.◌∷◌ c (only_alphanumeric s) else only_alphanumeric s

abbrev drop_text : ℕ → String → String
drop_text zero s = s
drop_text (suc n) String.[] = ""
drop_text (suc n) (String.◌∷◌ c s) = drop_text n s

-- `value.slice(-6)`
abbrev last_six : String → String
last_six s = drop_text (count s - 6) s

pub record Candidate : Type 0 where
  pub seed : Value
  pub mobile_name : Value

module _ (rt : Runtime) where
  unfoldable pub normalize_name : Value → String
  unfolding is_space
  normalize_name value = single_spaces false (trimmed_text rt value)

  unfoldable pub connection_suffix : Value → String
  connection_suffix seed =
      let normalized = only_alphanumeric (trimmed_text rt seed) in
      if is_empty normalized
      then last_six (rt.number_text (finite false (rt.now 0) 0))
      else last_six normalized

  unfoldable pub format_connection_name : Value → Value → String
  unfolding connection_suffix normalize_name
  format_connection_name seed mobile_name =
      let name = normalize_name mobile_name in
      if is_empty name
      then "连接-" ++ connection_suffix seed
      else name ++ ("-连接-" ++ connection_suffix seed)

  unfoldable pub is_generated_name : Value → List Candidate → Bool
  unfolding format_connection_name
  is_generated_name value List.[] = false
  is_generated_name value (List.◌∷◌ c cs) =
      let name = normalize_name value in
      not (is_empty name)
      && (name == format_connection_name c.seed c.mobile_name
          || (name == format_connection_name c.seed (str "") || is_generated_name value cs))

  -- `String(payload.a || payload.b || '').trim()`
  abbrev text_member_of : String → String → Fields → String
  text_member_of a b payload =
      trimmed_text rt (if truthy (member a payload) then member a payload else member b payload)

  pub record QrPayload : Type 0 where
    pub version : String
    pub server_base_url : String
    pub pair_session_id : String
    pub claim_token : String
    pub device_id : String
    pub device_pubkey : String
    pub session_nonce : String
    pub expires_at : Num

  unfoldable pub parse_qr_payload : Fields → QrPayload
  parse_qr_payload payload = record {
    version = trimmed_text rt (member "version" payload);
    server_base_url = text_member_of "serverBaseUrl" "server_base_url" payload;
    pair_session_id = text_member_of "pairSessionId" "pair_session_id" payload;
    claim_token = text_member_of "claimToken" "claim_token" payload;
    device_id = text_member_of "deviceId" "device_id" payload;
    device_pubkey = text_member_of "devicePubkey" "device_pubkey" payload;
    session_nonce = text_member_of "sessionNonce" "session_nonce" payload;
    expires_at = number_or_zero rt (
        if truthy (member "expiresAt" payload)
        then member "expiresAt" payload
        else member "expires_at" payload);
  }

  -- What `pairV2RequestJson` makes of a response: its JSON, or the message that it throws.
  unfoldable pub response_of : (is_ok : Bool) (status : ℕ) (body : Value) → Result Value
  response_of is_ok status body =
      if not is_ok || is_false (optional_member "ok" body)
      then err (
          if truthy (optional_member "message" body)
          then text_of rt (optional_member "message" body)
          else if truthy (optional_member "error" body)
          then text_of rt (optional_member "error" body)
          else "HTTP " ++ rt.number_text (finite false status 0))
      else ok body
    where
      is_false : Value → Bool
      is_false (bool false) = true
      is_false _ = false
