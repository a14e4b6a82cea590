-- ===== src/Http.antt =====
-- internal/httpx/json.go, and `net/http`'s ServeMux and ResponseWriter as far as the services use them.
use flashsale_reservation.Prelude.{
  ℕ, Bool, true, false, Option, none, some, List, [], ◌∷◌, ◌++◌, if◌then◌else◌,
}
use flashsale_reservation.Prelude.Text.{Text, codes, text_eq}

-- What is sent on a connection: the status line goes out once, with the headers set before it.
pub record ResponseWriter : Type 0 where
  pub content_type : Option Text
  pub sent : Option (ℕ × Option Text)
  pub body : Text

abbrev pub new_response : ResponseWriter
new_response = record { content_type = none; sent = none; body = [] }

abbrev pub write_header : ℕ → ResponseWriter → ResponseWriter
write_header status w = elim w.sent [
  | none ↦ record w { sent = some (status, w.content_type) }
  | some line ↦ w
]

-- `Encode` writes the value and a line feed, or nothing when the value has no JSON.
unfoldable pub write_json {ℓ} :
    {A : Type ℓ} → (A → Option Text) → ℕ → A → ResponseWriter → ResponseWriter
write_json marshal status v w =
    let started =
      write_header status (record w { content_type = some (codes "application/json") }) in
    elim (marshal v) [
      | none ↦ started
      | some json ↦ record started { body = started.body ++ (json ++ (10 ∷ [])) }
    ]

pub record ErrorResponse : Type 0 where
  pub error : Text

unfoldable pub write_error :
    (ErrorResponse → Option Text) → ℕ → Text → ResponseWriter → ResponseWriter
write_error marshal status message w = write_json marshal status (record { error = message }) w

pub data Method : Type 0 where
  get head post other_method : Method

-- A segment of a pattern: a literal, or `{itemID}`.
pub data Segment : Type 0 where
  literal : Text → Segment
  item_id : Segment

pub record Route {ℓ} (A : Type ℓ) : Type ℓ where
  pub method : Method
  pub pattern_of : List Segment
  pub handler : Text → A

-- A pattern for GET is one for HEAD too.
abbrev pub allows : Method → Method → Bool
allows get get = true
allows get head = true
allows post post = true
allows _ _ = false

-- The value of `{itemID}`, empty if the pattern has none. The mux matches a cleaned path, in which no
-- segment is empty.
unfoldable pub match_path : List Segment → List Text → Option Text
match_path [] [] = some []
match_path [] (t ∷ ts) = none
match_path (s ∷ ps) [] = none
match_path (literal l ∷ ps) (t ∷ ts) = if text_eq l t then match_path ps ts else none
match_path (item_id ∷ ps) ([] ∷ ts) = none
match_path (item_id ∷ ps) ((b ∷ t) ∷ ts) = elim (match_path ps ts) [
  | none ↦ none
  | some rest ↦ some (b ∷ t)
]

pub data Routed {ℓ} (A : Type ℓ) : Type ℓ where
  found : A → Routed A
  method_not_allowed not_found : Routed A

abbrev pub or_not_allowed {ℓ} : {A : Type ℓ} → Routed A → Routed A
or_not_allowed not_found = method_not_allowed
or_not_allowed r = r

-- The patterns of one service match no path in common, but for their methods.
unfoldable pub route {ℓ} : {A : Type ℓ} → List (Route A) → Method → List Text → Routed A
route [] m path = not_found
route (r ∷ routes) m path =
    let rest = route routes m path in
    elim (match_path r.pattern_of path) [
      | none ↦ rest
      | some item ↦ if allows r.method m then found (r.handler item) else or_not_allowed rest
    ]

-- `newHealthServer` of the decision service and of the expiry worker: one route, and its answer.
unfoldable pub health_server : Text → Method → List Text → Routed (ℕ × Text)
health_server service m path =
    route
      (record {
        method = get;
        pattern_of = literal (codes "healthz") ∷ [];
        handler = λ item. (200, service);
      }
        ∷ [])
      m path

-- cmd/decision-service/main.go
unfoldable pub decision_health_server : Method → List Text → Routed (ℕ × Text)
decision_health_server m path = health_server (codes "decision-service") m path

-- cmd/expiry-worker/main.go
unfoldable pub expiry_health_server : Method → List Text → Routed (ℕ × Text)
expiry_health_server m path = health_server (codes "expiry-worker") m path
