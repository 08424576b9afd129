-- ===== src/Fingerprints.antt =====
-- core/fingerprints.py of src/dogdb: the normal form of a statement, and the fingerprints of a
-- statement and of its parameters.
use Prim.Native.Char.{Char, code}
use Prim.Native.String.{◌++◌ as append}
use text.Mathlib.TextBridge.{to_list, of_list}
use dogdb.Prelude.{
  ℕ, String, Bool, true, false, ◌&&◌, ◌||◌, List, [], ◌∷◌, ◌++◌, ◌==◌, leb, if◌then◌else◌,
}
use dogdb.Prelude.Show.{hex}
use dogdb.Models.{type_error}
use dogdb.Exec.{Result, ok, err}
use dogdb.Platform.{Platform}

-- c.isspace()
unfoldable pub is_space : Char → Bool
is_space c =
    let n = code c in
    leb 9 n && leb n 13
    || leb 28 n && leb n 32
    || n == 133
    || n == 160
    || n == 5760
    || leb 8192 n && leb n 8202
    || n == 8232
    || n == 8233
    || n == 8239
    || n == 8287
    || n == 12288

-- c in "\r\n"
abbrev pub is_newline : Char → Bool
is_newline c = code c == 13 || code c == 10

-- Where the scan stands: outside literals, in a literal with its quote, in a comment.
pub data ScanMode : Type 0 where
  plain : ScanMode
  quoted : Char → ScanMode
  line_comment block_comment : ScanMode

-- `if pending_space: normalized.append(" ")`
abbrev pub flush : Bool → List Char → List Char
flush true out = out ++ " " ∷ []
flush false out = out

-- bool(normalized)
abbrev pub is_started : List Char → Bool
is_started [] = false
is_started (c ∷ l) = true

module _ (lower : Char → List Char) where
  -- `char if quote == "'" else char.lower()`; 39 is the apostrophe
  abbrev pub quoted_char : Char → Char → List Char
  quoted_char quote c = if code quote == 39 then c ∷ [] else lower c

  -- The loop of normalize_sql, over the characters that are left. A newline that ends a comment is
  -- white space, which leaves the loop as the comment's end does.
  unfoldable pub scan : ScanMode → Bool → List Char → List Char → List Char
  unfolding is_space
  scan mode pending out [] = out
  scan (quoted q) pending out (c ∷ []) = out ++ quoted_char q c
  scan (quoted q) pending out (c ∷ d ∷ l) = elim (code c == code q) [
    | false ↦ scan (quoted q) pending (out ++ quoted_char q c) (d ∷ l)
    | true ↦ (elim (code d == code q) [
      | true ↦ scan (quoted q) pending ((out ++ quoted_char q c) ++ quoted_char q d) l
      | false ↦ scan plain pending (out ++ quoted_char q c) (d ∷ l)
    ])
  ]
  scan line_comment pending out (c ∷ l) = elim (is_newline c) [
    | true ↦ scan plain (is_started out) out l
    | false ↦ scan line_comment pending out l
  ]
  scan block_comment pending out (c ∷ []) = out
  scan block_comment pending out (c ∷ d ∷ l) = elim (code c == b'*' && code d == b'/') [
    | true ↦ scan plain (is_started out) out l
    | false ↦ scan block_comment pending out (d ∷ l)
  ]
  scan plain pending out (c ∷ []) = elim (is_space c) [
    | true ↦ out
    | false ↦ flush pending out ++ (if code c == 39 || code c == b'"' then c ∷ [] else lower c)
  ]
  scan plain pending out (c ∷ d ∷ l) = elim (code c == b'-' && code d == b'-') [
    | true ↦ scan line_comment (is_started out) out l
    | false ↦ (elim (code c == b'/' && code d == b'*') [
      | true ↦ scan block_comment (is_started out) out l
      | false ↦ (elim (is_space c) [
        | true ↦ scan plain (is_started out) out (d ∷ l)
        | false ↦ (elim (code c == 39 || code c == b'"') [
          | true ↦ scan (quoted c) false (flush pending out ++ c ∷ []) (d ∷ l)
          | false ↦ scan plain false (flush pending out ++ lower c) (d ∷ l)
        ])
      ])
    ])
  ]

  -- normalize_sql, on the characters
  unfoldable pub normalize : List Char → List Char
  unfolding scan
  normalize l = scan plain false [] l

unfoldable pub template_fingerprint : Platform → String → String
unfolding normalize hex
template_fingerprint p sql =
    append "sha256:" (hex (p.sha256 (of_list (normalize p.lower_char (to_list sql)))))

-- The exact type of a positional parameter; the first twelve are FINGERPRINT_PARAMETER_TYPES.
pub data ParamType : Type 0 where
  none_type bool int float str bytes bytearray date time datetime decimal uuid : ParamType
  other_type : ParamType

-- A positional parameter, with the JSON text that `json.dumps` and `_json_default` give for it.
pub record Param : Type 0 where
  pub type : ParamType
  pub json : String

abbrev pub is_supported : Param → Bool
is_supported v = elim v.type [ other_type ↦ false | _ ↦ true ]

-- all(type(value) in FINGERPRINT_PARAMETER_TYPES for value in values)
unfoldable pub params_in_fingerprint_domain : List Param → Bool
params_in_fingerprint_domain [] = true
params_in_fingerprint_domain (v ∷ l) = is_supported v && params_in_fingerprint_domain l

-- json.dumps(list(values), separators=(",", ":"))
join_comma : List Param → String
join_comma [] = ""
join_comma (v ∷ []) = v.json
join_comma (v ∷ w ∷ l) = append v.json (append "," (join_comma (w ∷ l)))

-- parameter_fingerprint; a `TypeError` for an unsupported type
unfoldable pub parameter_fingerprint : Platform → List ℕ → List Param → Result String
unfolding params_in_fingerprint_domain join_comma
parameter_fingerprint p key values =
    if params_in_fingerprint_domain values
    then ok (append "hmac-sha256:" (p.hmac key (append "[" (append (join_comma values) "]"))))
    else err type_error
