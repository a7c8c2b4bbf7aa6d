-- ===== src/Contract/Details.antt =====
-- live-runner/contract.go: the checks on the JSON details of an event.
use livepeer_modules_transco.Prelude.{
  ℕ, ◌+◌, Bool, true, false, ◌&&◌, ◌||◌, Option, none, some, List, [], ◌∷◌, ltb, leb, ◌==◌,
  if◌then◌else◌, length, any, Bytes, codes, contains, invalid, Result, err, ◌>>◌, reject,
}
use livepeer_modules_transco.Contract.Types.{
  Json, null, boolean, number, text, instant, array, object, Items, no_items, item, Members,
  no_members, member, RawMessage, Stamp, unset, malformed, at,
}

-- strings.ToLower on ASCII text.
unfoldable pub to_lower : Bytes → Bytes
to_lower [] = []
to_lower (c ∷ s) = (if leb b'A' c && leb c b'Z' then c + 32 else c) ∷ to_lower s

abbrev forbidden_keys : List Bytes
forbidden_keys =
    codes "token"
    ∷ codes "secret"
    ∷ codes "credential"
    ∷ codes "authorization"
    ∷ codes "stream_key"
    ∷ codes "streamkey"
    ∷ codes "url"
    ∷ codes "password"
    ∷ []

-- The keys whose presence at any depth makes details unsafe.
unfoldable pub forbidden_key : Bytes → Bool
unfolding contains any to_lower
forbidden_key key = any (contains (to_lower key)) forbidden_keys

-- The texts whose presence at any depth makes details unsafe.
unfoldable pub forbidden_text : Bytes → Bool
unfolding contains to_lower
forbidden_text s =
    contains (to_lower s) (codes "://")
    || (contains (to_lower s) (codes "sig=") || contains (to_lower s) (codes "bearer "))

-- The text of an instant has digits, "-", "T", ":", "." and "Z" only, none next to a "/".
unfoldable mutual
  unfolding forbidden_key forbidden_text

  pub unsafe_event_detail : Json → Bool
  unsafe_event_detail null = false
  unsafe_event_detail (boolean b) = false
  unsafe_event_detail (number d) = false
  unsafe_event_detail (text s) = forbidden_text s
  unsafe_event_detail (instant t) = false
  unsafe_event_detail (array items) = unsafe_items items
  unsafe_event_detail (object members) = unsafe_members members

  pub unsafe_items : Items → Bool
  unsafe_items no_items = false
  unsafe_items (item v rest) = unsafe_event_detail v || unsafe_items rest

  pub unsafe_members : Members → Bool
  unsafe_members no_members = false
  unsafe_members (member key v rest) =
      forbidden_key key || (unsafe_event_detail v || unsafe_members rest)

-- The bytes that json.Marshal writes for a byte of a string, ASCII with HTML escaping.
escaped_size : ℕ → ℕ
escaped_size c =
    if c == b'"' || (c == 92 || (c == 10 || (c == 13 || (c == 9 || (c == 8 || c == 12)))))
    then 2
    else if ltb c 32 || (c == b'<' || (c == b'>' || c == b'&'))
    then 6
    else 1

unfoldable pub text_size : Bytes → ℕ
unfolding escaped_size
text_size [] = 0
text_size (c ∷ s) = escaped_size c + text_size s

-- The length of json.Marshal's output. An instant takes at most 30 bytes and its quotes, and is
-- counted so; trailing zeros of the fraction are left out of the real text.
unfoldable mutual
  unfolding text_size

  pub marshal_size : Json → ℕ
  marshal_size null = 4
  marshal_size (boolean true) = 4
  marshal_size (boolean false) = 5
  marshal_size (number d) = length d
  marshal_size (text s) = 2 + text_size s
  marshal_size (instant t) = 32
  marshal_size (array items) = 2 + items_size items
  marshal_size (object members) = 2 + members_size members

  pub items_size : Items → ℕ
  items_size no_items = 0
  items_size (item v rest) = 1 + marshal_size v + items_size rest

  pub members_size : Members → ℕ
  members_size no_members = 0
  members_size (member key v rest) = 4 + text_size key + marshal_size v + members_size rest

unfoldable pub marshal : Json → RawMessage
unfolding marshal_size
marshal v = record { size = marshal_size v; value = some v }

-- The JSON of a field that holds a time as text.
unfoldable pub stamp_json : Stamp → Json
stamp_json unset = text []
stamp_json (malformed s) = text s
stamp_json (at t) = instant t

unfoldable pub check_details_value : Option Json → Result (Unit {0})
unfolding unsafe_event_detail
check_details_value (some (object members)) =
    reject (unsafe_event_detail (object members))
      (invalid "event details contain credential-bearing data")
check_details_value none = err (invalid "event details must be bounded JSON")
check_details_value _ = err (invalid "event details must be a JSON object")

unfoldable pub validate_safe_event_details : RawMessage → Result (Unit {0})
unfolding check_details_value
validate_safe_event_details raw = do
  reject (raw.size == 0 || ltb 2048 raw.size) (invalid "event details must be bounded JSON")
  check_details_value raw.value
