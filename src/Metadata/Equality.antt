-- ===== src/Metadata/Equality.antt =====
-- src/metadata: the derived equality of messages.
use libloot.Prelude.{
  ◌≡◌, refl, ap, subst, Bool, true, false, ◌&&◌, List, [], ◌∷◌, Option, none, some, ◌==◌, ==_iff,
}
use libloot.Prelude.Dict.{IsEquivalence}
use libloot.Text.{Text, eq_text, eq_list, eq_option}
use libloot.Metadata.Message.{
  MessageType, MessageContent, Message, eq_message_type, eq_message_content, eq_message,
}

-- A Boolean test of equality.
pub record IsTest {A : Type 0} (eq : A → A → Bool) : Type 0 where
  pub same : (a : A) → eq a a ≡ true
  pub sound : (a b : A) → eq a b ≡ true → a ≡ b

and_left : (a b : Bool) → (a && b) ≡ true → a ≡ true
and_left true b h = refl
and_left false b h = h

and_right : (a b : Bool) → (a && b) ≡ true → b ≡ true
and_right true b h = h
and_right false b h = absurd (cc)

both : (a b : Bool) → a ≡ true → b ≡ true → (a && b) ≡ true
both a b h k = rw (h, k) refl

module _ {A : Type 0} {eq : A → A → Bool} (test : IsTest eq) where
  IsTest-list : IsTest (eq_list eq)
  IsTest-list = record { same = same; sound = sound }
    where
      same : (l : List A) → eq_list eq l l ≡ true
      same [] = refl
      same (x ∷ l) = both (eq x x) (eq_list eq l l) (test.same x) (same l)

      sound : (l k : List A) → eq_list eq l k ≡ true → l ≡ k
      sound [] [] h = refl
      sound [] (y ∷ k) h = absurd (cc)
      sound (x ∷ l) [] h = absurd (cc)
      sound (x ∷ l) (y ∷ k) h =
          rw (test.sound x y (and_left _ _ h), sound l k (and_right (eq x y) _ h)) refl

  IsTest-option : IsTest (eq_option eq)
  IsTest-option = record { same = same; sound = sound }
    where
      same : (o : Option A) → eq_option eq o o ≡ true
      same none = refl
      same (some a) = test.same a

      sound : (o p : Option A) → eq_option eq o p ≡ true → o ≡ p
      sound none none h = refl
      sound none (some b) h = absurd (cc)
      sound (some a) none h = absurd (cc)
      sound (some a) (some b) h = ap some (test.sound a b h)

  pub IsEquivalence-of_test : IsEquivalence eq
  IsEquivalence-of_test = record {
    reflexive = test.same;
    symmetric = λ a b h. subst (λ w. eq w a ≡ true) (test.sound a b h) (test.same a);
    transitive = λ a b c h k. subst (λ w. eq a w ≡ true) (test.sound b c k) h;
  }

pub text-IsTest : IsTest eq_text
text-IsTest = record { same = same; sound = sound }
  where
    same : (s : Text) → eq_text s s ≡ true
    same [] = refl
    same (c ∷ s) = both (c == c) (eq_text s s) ((==_iff c c).1 refl) (same s)

    sound : (s t : Text) → eq_text s t ≡ true → s ≡ t
    sound [] [] h = refl
    sound [] (d ∷ t) h = absurd (cc)
    sound (c ∷ s) [] h = absurd (cc)
    sound (c ∷ s) (d ∷ t) h =
        rw ((==_iff c d).0 (and_left _ _ h), sound s t (and_right (c == d) _ h)) refl

content-IsTest : IsTest eq_message_content
content-IsTest = record {
  same = λ a. both _ _ (text-IsTest.same a.text) (text-IsTest.same a.language);
  sound = λ a b h.
      rebuilt a b (text-IsTest.sound a.text b.text (and_left _ _ h))
        (text-IsTest.sound a.language b.language (and_right (eq_text a.text b.text) _ h));
}
  where
    rebuilt : (a b : MessageContent) → a.text ≡ b.text → a.language ≡ b.language → a ≡ b
    rebuilt a b h k = λ i. record { text = h i; language = k i }

message_type-IsTest : IsTest eq_message_type
message_type-IsTest = record { same = same; sound = sound }
  where
    same : (t : MessageType) → eq_message_type t t ≡ true
    same MessageType.say = refl
    same MessageType.warn = refl
    same MessageType.error = refl

    sound : (t u : MessageType) → eq_message_type t u ≡ true → t ≡ u
    sound MessageType.say MessageType.say h = refl
    sound MessageType.say MessageType.warn h = absurd (cc)
    sound MessageType.say MessageType.error h = absurd (cc)
    sound MessageType.warn MessageType.say h = absurd (cc)
    sound MessageType.warn MessageType.warn h = refl
    sound MessageType.warn MessageType.error h = absurd (cc)
    sound MessageType.error MessageType.say h = absurd (cc)
    sound MessageType.error MessageType.warn h = absurd (cc)
    sound MessageType.error MessageType.error h = refl

pub message-IsTest : IsTest eq_message
message-IsTest = record {
  same = λ a.
      both _ _
        (both _ _ (message_type-IsTest.same a.level) ((IsTest-list content-IsTest).same a.content))
        ((IsTest-option text-IsTest).same a.condition);
  sound = λ a b h.
      let first =
        and_left (eq_message_type a.level b.level && eq_list eq_message_content a.content b.content)
          _ h in
      rebuilt a b (message_type-IsTest.sound a.level b.level (and_left _ _ first))
        ((IsTest-list content-IsTest).sound a.content b.content
          (and_right (eq_message_type a.level b.level) _ first))
        ((IsTest-option text-IsTest).sound a.condition b.condition (
          and_right
            (eq_message_type a.level b.level && eq_list eq_message_content a.content b.content) _
            h));
}
  where
    rebuilt :
        (a b : Message)
        → a.level ≡ b.level
        → a.content ≡ b.content
        → a.condition ≡ b.condition
        → a ≡ b
    rebuilt a b h k l = λ i. record { level = h i; content = k i; condition = l i }
