-- ===== src/Metadata/Message.antt =====
-- src/metadata/message.rs: messages and the choice of their language.
pub mod Code
pub mod Choice
use libloot.Prelude.{
  ℕ, Bool, true, false, not, ◌&&◌, List, [], ◌∷◌, Option, none, some, length, any, ltb, ◌==◌,
  if◌then◌else◌,
}
use libloot.Prelude.Result.{Result, ok, err, ◌>>=◌, ◌>>◌}
use libloot.Text.{Text, eq_text, eq_list, eq_option}

pub data MessageType : Type 0 where
  say warn error : MessageType

abbrev pub eq_message_type : MessageType → MessageType → Bool
eq_message_type say say = true
eq_message_type warn warn = true
eq_message_type error error = true
eq_message_type a b = false

pub record MessageContent : Type 0 where
  pub text : Text
  pub language : Text

abbrev pub default_language : Text
default_language = b'e' ∷ b'n' ∷ []

abbrev pub message_content : Text → MessageContent
message_content text = record { text = text; language = default_language }

abbrev pub with_language : Text → MessageContent → MessageContent
with_language language content = record content { language = language }

abbrev pub eq_message_content : MessageContent → MessageContent → Bool
eq_message_content a b = eq_text a.text b.text && eq_text a.language b.language

-- `str::split_once`, at a byte.
abbrev pub split_once : ℕ → Text → Option (Text × Text)
split_once byte [] = none
split_once byte (c ∷ cs) =
    let later = split_once byte cs in
    if c == byte
    then some ([], cs)
    else elim later [ none ↦ none | some (first, last) ↦ some (c ∷ first, last) ]

-- The language code of a language that has a country code.
abbrev pub code_of : Text → Option Text
code_of language = elim (split_once b'_' language) [
  | none ↦ none
  | some (code, country) ↦ some code
]

-- Whether a content's language has the same language code, one of the two with a country code.
abbrev pub is_same_code : Text → MessageContent → Bool
is_same_code language content = elim (code_of language) [
  | some code ↦ eq_text code content.language
  | none ↦ elim (code_of content.language) [
    | some content_code ↦ eq_text content_code language
    | none ↦ false
  ]
]

-- The loop over the contents.
unfoldable pub select_from :
    Text
    → List MessageContent
    → Option MessageContent
    → Option MessageContent
    → Option MessageContent
select_from language [] matched english = elim matched [ some c ↦ some c | none ↦ english ]
select_from language (mc ∷ contents) matched english =
    let later =
      select_from language contents
        (elim matched [
          | some c ↦ some c
          | none ↦ if is_same_code language mc then some mc else none
        ])
        (elim matched [
          | some c ↦ english
          | none ↦ if eq_text mc.language default_language then some mc else english
        ]) in
    if eq_text mc.language language then some mc else later

unfoldable pub select_message_content : List MessageContent → Text → Option MessageContent
select_message_content [] language = none
select_message_content (c ∷ []) language = some c
select_message_content (c ∷ d ∷ contents) language =
    select_from language (c ∷ d ∷ contents) none none

pub record Message : Type 0 where
  pub level : MessageType
  pub content : List MessageContent
  pub condition : Option Text

abbrev pub eq_message : Message → Message → Bool
eq_message a b =
    eq_message_type a.level b.level
    && eq_list eq_message_content a.content b.content
    && eq_option eq_text a.condition b.condition

abbrev pub message : MessageType → Text → Message
message level content = record {
  level = level;
  content = message_content content ∷ [];
  condition = none;
}

-- `MultilingualMessageContentsError` has no fields.
unfoldable pub validate_message_contents : List MessageContent → Result (Unit {0}) (Unit {0})
validate_message_contents contents =
    if ltb 1 (length contents)
      && not (any (λ (c : MessageContent). eq_text c.language default_language) contents)
    then err tt
    else ok tt

unfoldable pub multilingual : MessageType → List MessageContent → Result (Unit {0}) Message
multilingual level content = do
  validate_message_contents content
  ok (record { level = level; content = content; condition = none })

abbrev pub with_condition : Text → Message → Message
with_condition condition m = record m { condition = some condition }
