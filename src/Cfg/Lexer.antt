-- ===== src/Cfg/Lexer.antt =====
-- The tokenizer of util/cfg.rs. Its state is the text that is left; a slice of the original text
-- is the list of the characters that the loop went over.
use toml.Prelude.{
  ℕ, String, Text, Bool, true, false, ◌&&◌, ◌||◌, Option, none, some, [], ◌∷◌, ◌==◌, eqb, leb,
  if◌then◌else◌, ◌⊎◌, inl, inr, list_eq, nat_eq,
}

pub data Token : Type 0 where
  left_paren right_paren comma equals : Token
  ident string : Text → Token

-- `derive(PartialEq)`
abbrev pub token_beq : Token → Token → Bool
token_beq left_paren left_paren = true
token_beq right_paren right_paren = true
token_beq comma comma = true
token_beq equals equals = true
token_beq (ident a) (ident b) = a == b
token_beq (string a) (string b) = a == b
token_beq _ _ = false

abbrev pub classify : Token → String
classify left_paren = "`(`"
classify right_paren = "`)`"
classify (ident _) = "an identifier"
classify comma = "`,`"
classify equals = "`=`"
classify (string _) = "a string"

-- The messages of the module; `expected` has what was found, or `none` at the end.
pub data CfgError : Type 0 where
  unterminated_string : CfgError
  unexpected_character : ℕ → CfgError
  expected : String → Option String → CfgError
  malformed_cfg more_than_one_expr : CfgError

unfoldable pub is_ident_start : ℕ → Bool
is_ident_start ch = eqb ch b'_' || leb b'a' ch && leb ch b'z' || leb b'A' ch && leb ch b'Z'

unfoldable pub is_ident_rest : ℕ → Bool
unfolding is_ident_start
is_ident_rest ch = is_ident_start ch || leb b'0' ch && leb ch b'9'

abbrev push {ℓ} : {B : Type ℓ} → ℕ → Option (Text × B) → Option (Text × B)
push c none = none
push c (some (w, s)) = some (c ∷ w, s)

-- up to the closing quote
unfoldable pub scan_string : Text → Option (Text × Text)
scan_string [] = none
scan_string (c ∷ s) = let rest = push c (scan_string s) in if eqb c 0x22 then some ([], s) else rest

abbrev push_ident : ℕ → Text × Text → Text × Text
push_ident c (w, s) = (c ∷ w, s)

unfoldable pub scan_ident : Text → Text × Text
unfolding is_ident_rest
scan_ident [] = ([], [])
scan_ident (c ∷ s) =
    let rest = push_ident c (scan_ident s) in if is_ident_rest c then rest else ([], c ∷ s)

abbrev pub Lexed : Type 0
Lexed = Option ((CfgError ⊎ Token) × Text)

abbrev pub string_token : Option (Text × Text) → Lexed
string_token none = some (inl unterminated_string, [])
string_token (some (w, s)) = some (inr (string w), s)

abbrev pub ident_token : ℕ → Text × Text → Lexed
ident_token c (w, s) = some (inr (ident (c ∷ w)), s)

-- `Tokenizer::next`
unfoldable pub next : Text → Lexed
unfolding scan_string scan_ident is_ident_start
next [] = none
next (c ∷ s) =
    let rest = next s in
    if eqb c b' '
    then rest
    else if eqb c b'('
    then some (inr left_paren, s)
    else if eqb c b')'
    then some (inr right_paren, s)
    else if eqb c b','
    then some (inr comma, s)
    else if eqb c b'='
    then some (inr equals, s)
    else if eqb c 0x22
    then string_token (scan_string s)
    else if is_ident_start c
    then ident_token c (scan_ident s)
    else some (inl (unexpected_character c), s)
