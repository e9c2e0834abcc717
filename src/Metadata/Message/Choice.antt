-- ===== src/Metadata/Message/Choice.antt =====
-- src/metadata/message.rs: which content is chosen for a language.
use libloot.Prelude.{
  ◌≡◌, refl, sym, subst, ◌↔◌, inl, inr, Bool, true, false, not, ◌&&◌, List, [], ◌∷◌, Option, none,
  some, or_else, find, any, length, ltb, Bool-cases, if◌then◌else◌, arith,
}
use libloot.Prelude.Result.{Result, ok, err}
use libloot.Text.{Text, eq_text, is_empty}
use libloot.Metadata.Message.{
  MessageContent, default_language, is_same_code, select_from, select_message_content,
  validate_message_contents,
}
use libloot.Metadata.Message.Code.{HasSameCode, is_same_code_iff}

-- The last item that passes a test, or else the value given.
abbrev pub find_last : {A : Type 0} → (A → Bool) → List A → Option A → Option A
find_last p [] o = o
find_last p (x ∷ xs) o = find_last p xs (if p x then some x else o)

module _ (language : Text) where
  abbrev pub is_exact : MessageContent → Bool
  is_exact content = eq_text content.language language

  abbrev pub is_default : MessageContent → Bool
  is_default content = eq_text content.language default_language

  select_from-matched :
      (contents : List MessageContent) (m : MessageContent) (english : Option MessageContent)
      → select_from language contents (some m) english ≡ or_else (find is_exact contents) (some m)
  unfolding select_from
  select_from-matched [] m english = refl
  select_from-matched (c ∷ contents) m english = elim (Bool-cases (is_exact c)) [
    | inl e ↦ rw e refl
    | inr e ↦ rw e (select_from-matched contents m english)
  ]

  select_from-unmatched :
      (contents : List MessageContent) (english : Option MessageContent)
      → select_from language contents none english
        ≡ or_else (find is_exact contents) (
            or_else (find (is_same_code language) contents) (find_last is_default contents english))
  unfolding select_from
  select_from-unmatched [] english = refl
  select_from-unmatched (c ∷ contents) english = elim (Bool-cases (is_exact c)) [
    | inl e ↦ rw e refl
    | inr e ↦ elim (Bool-cases (is_same_code language c)) [
      | inl k ↦ rw (e, k) (select_from-matched contents c _)
      | inr k ↦ rw (e, k) (select_from-unmatched contents _)
    ]
  ]

  select_message_content-of_two :
      (c d : MessageContent) (contents : List MessageContent)
      → let all = c ∷ d ∷ contents in
        select_message_content all language
        ≡ or_else
            (find is_exact all)
            (or_else (find (is_same_code language) all) (find_last is_default all none))
  unfolding select_message_content
  select_message_content-of_two c d contents = select_from-unmatched (c ∷ d ∷ contents) none

  -- Of two or more contents, the first in exactly the language is chosen; if there is none, the
  -- first for which `is_same_code` holds; and if there is none of those, the last in the default
  -- language, if any. And `is_same_code` holds exactly if the language has a country code, behind
  -- its first `_`, and the content's language is what stands before that, or if the language has no
  -- `_` and the content's language is it with a country code.
  pub select_message_content_lem :
      (c d : MessageContent) (contents : List MessageContent)
      → let all = c ∷ d ∷ contents in
        (select_message_content all language
          ≡ or_else
              (find is_exact all)
              (or_else (find (is_same_code language) all) (find_last is_default all none)))
        × ((m : MessageContent)
            → (is_same_code language m ≡ true) ↔ HasSameCode language m.language)
  select_message_content_lem c d contents =
      (select_message_content-of_two c d contents, is_same_code_iff language)

  or_else-some :
      {A : Type 0} (o p : Option A) → (a : A) × (p ≡ some a) → (a : A) × (or_else o p ≡ some a)
  or_else-some none p h = h
  or_else-some (some a) p h = (a, refl)

  find_last-some :
      {A : Type 0} (p : A → Bool) (l : List A) (a : A) → (b : A) × (find_last p l (some a) ≡ some b)
  find_last-some p [] a = (a, refl)
  find_last-some p (x ∷ l) a = elim (Bool-cases (p x)) [
    | inl e ↦ rw e (find_last-some p l x)
    | inr e ↦ rw e (find_last-some p l a)
  ]

  find_last-any :
      {A : Type 0} (p : A → Bool) (l : List A)
      → any p l ≡ true
      → (a : A) × (find_last p l none ≡ some a)
  find_last-any p [] h = absurd (cc)
  find_last-any p (x ∷ l) h = elim (Bool-cases (p x)) [
    | inl e ↦ rw e (find_last-some p l x)
    | inr e ↦ rw e (find_last-any p l (subst (λ b. (if b then true else any p l) ≡ true) e h))
  ]

  -- If the contents pass the validation and there are any, one is chosen, whatever the language.
  pub select_message_content-found :
      (contents : List MessageContent)
      → validate_message_contents contents ≡ ok tt
      → is_empty contents ≡ false
      → (c : MessageContent) × (select_message_content contents language ≡ some c)
  unfolding select_message_content validate_message_contents
  select_message_content-found [] h k = absurd (cc)
  select_message_content-found (c ∷ []) h k = (c, refl)
  select_message_content-found (c ∷ d ∷ contents) h k =
      go (any is_default (c ∷ d ∷ contents)) refl (ltb 1 (length (c ∷ d ∷ contents))) (ground arith)
        h
    where
      found :
          any is_default (c ∷ d ∷ contents) ≡ true
          → (m : MessageContent) × (select_message_content (c ∷ d ∷ contents) language ≡ some m)
      found e =
          subst (λ o. (m : MessageContent) × (o ≡ some m))
            (sym (select_message_content-of_two c d contents))
            (or_else-some _ _ (or_else-some _ _ (find_last-any is_default (c ∷ d ∷ contents) e)))

      go :
          (b : Bool)
          → any is_default (c ∷ d ∷ contents) ≡ b
          → (t : Bool) → t ≡ true
          → ◌≡◌ {A = Result (Unit {0}) (Unit {0})} (if t && not b then err tt else ok tt) (ok tt)
          → (m : MessageContent) × (select_message_content (c ∷ d ∷ contents) language ≡ some m)
      go true e t et h = found e
      go false e true et h = absurd (cc)
      go false e false et h = absurd (cc)
