-- ===== src/Web/Request.antt =====
-- web/controllers/base.go, client.go and index.go: what the controllers read of a request. `query` is
-- the `Query` of beego's input, which prefers the parameters set by the program to those of the form.
-- No controller gives a default.
use nps_socks.Common.Arrays.{in_str_arr}
use nps_socks.Strconv.{atoi, value_of}
use nps_socks.Prelude.{
  Text, Bool, List, Option, ℤ, codes, text_eq, nat_eq, ◌==◌, ◌||◌, ◌∷◌, split_text, some,
  if◌then◌else◌, ◌++◌, [], none, split,
}

pub record Request : Type 0 where
  pub is_get : Bool
  pub query : Text → Text

-- `s.Ctx.Input.SetParam(key, value)` for a value that is not empty
abbrev pub set_param : Text → Text → Request → Request
set_param key value r = record r { query = λ k. if k == key then value else r.query k }

-- html.EscapeString
unfoldable pub escape_string : Text → Text
escape_string [] = []
escape_string (c ∷ cs) =
    let rest = escape_string cs in
    if c == 38
    then codes "&amp;" ++ rest
    else if c == 39
    then codes "&#39;" ++ rest
    else if c == 60
    then codes "&lt;" ++ rest
    else if c == 62
    then codes "&gt;" ++ rest
    else if c == 34
    then codes "&#34;" ++ rest
    else c ∷ rest

unfoldable pub get_escape_string : Request → Text → Text
unfolding escape_string
get_escape_string r key = escape_string (r.query key)

unfoldable pub get_int_no_err : Request → Text → ℤ
get_int_no_err r key = value_of (atoi (r.query key))

-- the first result of strconv.ParseBool, with the error dropped
abbrev pub parse_bool : Text → Bool
parse_bool s =
    s == codes "1"
    || (s == codes "t"
        || (s == codes "T" || (s == codes "TRUE" || (s == codes "true" || s == codes "True"))))

unfoldable pub get_bool_no_err : Request → Text → Bool
get_bool_no_err r key = parse_bool (r.query key)

-- Of equal elements the last one stays.
unfoldable pub remove_repeated_element : List Text → List Text
remove_repeated_element [] = []
remove_repeated_element (x ∷ xs) =
    let rest = remove_repeated_element xs in if in_str_arr xs x then rest else x ∷ rest

-- The lines of a text area.
abbrev pub lines : Text → List Text
lines s = split_text s (13 ∷ 10 ∷ [])

abbrev pub store_text : Text → Text → List (Text × Text) → List (Text × Text)
store_text k v [] = (k, v) ∷ []
store_text k v ((j, w) ∷ m) = if j == k then (k, v) ∷ m else (j, w) ∷ store_text k v m

-- One account, or none for a line without a colon, where `auths[1]` panics.
abbrev pub auths : List Text → Option (Text × Text)
auths (user ∷ pass ∷ more) = some (user, pass)
auths (user ∷ []) = none
auths [] = none

abbrev pub auth_rows : List Text → List (Text × Text) → Option (List (Text × Text))
auth_rows [] m = some m
auth_rows (row ∷ rows) m = elim (auths (split b':' row)) [
  | none ↦ none
  | some (user, pass) ↦ auth_rows rows (store_text user pass m)
]

-- `none` is a panic.
unfoldable pub auth_str_to_map : Text → Option (List (Text × Text))
auth_str_to_map user_string =
    if user_string == [] then some [] else auth_rows (lines user_string) []
