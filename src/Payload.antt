-- ===== src/Payload.antt =====
-- access_decision/src/payload.cpp. The JSON library nlohmann::json is a parameter: `V` is its value
-- type, and texts are their bytes.
use access_security_system_e.Common.{ℕ, Bool, Option, none, some, List, [], ◌∷◌, if◌then◌else◌}
use access_security_system_e.Common.Text.{codes}

-- The calls that the parser makes.
pub record JsonLib (V : Type 0) : Type 0 where
  -- json::parse; `none` is its exception
  pub parse : List ℕ → Option V
  pub is_object : V → Bool
  -- contains and operator[]: the member of an object
  pub member : V → List ℕ → Option V
  -- is_string and get<std::string>
  pub get_string : V → Option (List ℕ)

pub record AccessRequest : Type 0 where
  pub card_id : List ℕ
  pub action : List ℕ

module _ {V : Type 0} (json : JsonLib V) where
  unfoldable pub string_member : V → List ℕ → Option (List ℕ)
  string_member v key = elim (json.member v key) [ none ↦ none | some w ↦ json.get_string w ]

  -- cardId.empty() and action.empty()
  unfoldable pub non_empty : AccessRequest → Option AccessRequest
  non_empty request = elim (request.card_id) [
    | [] ↦ none
    | _ ∷ _ ↦ elim (request.action) [ [] ↦ none | _ ∷ _ ↦ some request ]
  ]

  unfoldable pub request_of : V → Option AccessRequest
  unfolding non_empty string_member
  request_of v =
      if json.is_object v
      then elim (string_member v (codes "card_id")) [
        | none ↦ none
        | some card_id ↦ elim (string_member v (codes "action")) [
          | none ↦ none
          | some action ↦ non_empty (record { card_id = card_id; action = action })
        ]
      ]
      else none

  -- parseAccessRequestJson; `none` is std::runtime_error.
  unfoldable pub parse_access_request_json : List ℕ → Option AccessRequest
  unfolding request_of
  parse_access_request_json text = elim (json.parse text) [ none ↦ none | some v ↦ request_of v ]
