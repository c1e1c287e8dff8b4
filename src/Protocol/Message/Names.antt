-- ===== src/Protocol/Message/Names.antt =====
-- `message_type_name` tells the message types apart.
use Prim.Native.String.{String}
use lan_link.Prelude.{◌≡◌, refl, sym, ap, ◌∙◌, true, List, [], ◌∷◌, if◌then◌else◌}
use lan_link.Protocol.Message.{
  MessageType, unnamed, client_hello, enumerators, is_known_message_type, message_type_name,
}
use text.Mathlib.Text.{◌==◌ as str_eq}

-- The first of the types with this name.
find_name : String → List MessageType → MessageType
find_name s [] = unnamed 0
find_name s (t ∷ ts) = if str_eq (message_type_name t) s then t else find_name s ts

find_name-message_type_name :
    (t : MessageType)
    → is_known_message_type t ≡ true
    → find_name (message_type_name t) enumerators ≡ t
unfolding find_name message_type_name is_known_message_type
find_name-message_type_name (unnamed n) h = cc
find_name-message_type_name client_hello h = refl
find_name-message_type_name t h = refl

-- Known message types with the same name are the same.
pub message_type_name-injective :
    (t u : MessageType)
    → is_known_message_type t ≡ true
    → is_known_message_type u ≡ true
    → message_type_name t ≡ message_type_name u
    → t ≡ u
message_type_name-injective t u h k e =
    sym (find_name-message_type_name t h)
    ∙ ap (λ s. find_name s enumerators) e
    ∙ find_name-message_type_name u k
