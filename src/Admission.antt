-- ===== src/Admission.antt =====
-- proxima-scheduler/admissionhandler/admissionhandler.go: the answer to an admission review. Reading
-- the request's body and decoding and encoding are arguments.
use proxima_scheduler.Prelude.{
  ℕ, String, Bool, true, false, ◌≡◌, ◌⊎◌, inl, inr, refl, Option, none, some, List, [], ◌∷◌, ◌==◌,
  string_eq, if◌then◌else◌,
}
use proxima_scheduler.Map.{Map}
use proxima_scheduler.Map
use proxima_scheduler.Strings.{◌<>◌}

-- The handler, but for its codecs.
pub record AdmissionHandler : Type 0 where
  pub consul_url : String
  pub crt_path : String
  pub key_path : String

unfoldable pub new_admission_handler : String → String → String → AdmissionHandler
new_admission_handler consul crt key = record {
  consul_url = consul;
  crt_path = crt;
  key_path = key;
}

-- A container of a patch; an environment variable takes its value from a field of the pod.
pub record InitContainer : Type 0 where
  pub name : String
  pub image : String
  pub command : List String
  pub env : Map String String

pub record Patch : Type 0 where
  pub op : String
  pub path : String
  pub value : List InitContainer

pub record AdmissionRequest : Type 0 where
  pub uid : String
  -- the JSON text of the object
  pub raw : String

-- The response; `patch` is there together with its type, a JSON patch.
pub record AdmissionResponse : Type 0 where
  pub uid : String
  pub allowed : Bool
  pub patch : Option String

pub record AdmissionReview : Type 0 where
  pub api_version : String
  pub kind : String
  pub response : AdmissionResponse

-- What the handler does: an error status, a JSON text, or a panic.
pub data Handled : Type 0 where
  http_error : ℕ → Handled
  written : String → Handled
  panicked : Handled

abbrev pub register_command : String → String
register_command consul_url =
    "curl --request PUT --data '{\n\t\t\t\t\"ID\": \"test-flask-service-'$POD_IP'\",\n"
    <> "\t\t\t\t\"Name\": \"test-flask-service\",\n" <> "\t\t\t\t\"Address\": \"'$POD_IP'\",\n"
    <> "\t\t\t\t\"Meta\": {\n" <> "\t\t\t\t\t\"node_ip\": \"'$NODE_IP'\",\n"
    <> "\t\t\t\t\t\"pod_ip\": \"'$POD_IP'\"\n" <> "\t\t\t\t},\n" <> "\t\t\t\t\"Port\": 8080,\n"
    <> "\t\t\t\t\"Check\": {\n" <> "\t\t\t\t\t\"http\": \"http://'$POD_IP':8080\",\n"
    <> "\t\t\t\t\t\"interval\": \"10s\",\n"
    <> "\t\t\t\t\t\"deregister_critical_service_after\": \"1m\"\n" <> "\t\t\t\t}\n\t\t\t}' "
    <> consul_url <> "/v1/agent/service/register"

unfoldable pub init_container : String → InitContainer
init_container consul_url = record {
  name = "consul-register";
  image = "curlimages/curl:7.77.0";
  command = "sh" ∷ "-c" ∷ register_command consul_url ∷ [];
  env = ("POD_IP", "status.podIP") ∷ ("NODE_IP", "status.hostIP") ∷ [];
}

unfoldable pub init_container_patch : String → List Patch
init_container_patch consul_url =
    record { op = "add"; path = "/spec/initContainers"; value = init_container consul_url ∷ [] }
    ∷ []

abbrev pub wants_registration : Map String String → Bool
wants_registration annotations = Map.get_or "" "consul-register" annotations == "true"

-- The annotations of the pod of a request, and the JSON texts; each may fail.
module _ (decode : String → Option (Option AdmissionRequest))
    (unmarshal : String → Option (Map String String)) (marshal_patch : List Patch → Option String)
    (marshal : AdmissionReview → Option String) where
  abbrev pub write_review : Option String → Handled
  write_review none = http_error 500
  write_review (some text) = written text

  abbrev pub review_of : AdmissionRequest → Option String → AdmissionReview
  review_of request patch = record {
    api_version = "admission.k8s.io/v1";
    kind = "AdmissionReview";
    response = record { uid = request.uid; allowed = true; patch = patch };
  }

  unfoldable pub respond : AdmissionRequest → Bool → Option String → Handled
  respond request false patch = write_review (marshal (review_of request none))
  respond request true none = http_error 500
  respond request true (some patch) = write_review (marshal (review_of request (some patch)))

  abbrev pub review_pod : String → AdmissionRequest → Option (Map String String) → Handled
  review_pod consul_url request none = http_error 400
  review_pod consul_url request (some annotations) =
      respond request (wants_registration annotations)
        (marshal_patch (init_container_patch consul_url))

  -- A review without a request is dereferenced all the same.
  abbrev pub review : String → Option (Option AdmissionRequest) → Handled
  review consul_url none = http_error 400
  review consul_url (some none) = panicked
  review consul_url (some (some request)) = review_pod consul_url request (unmarshal request.raw)

  -- MutationHandler, for the body that was read, if it could be.
  unfoldable pub mutation_handler : String → Option String → Handled
  mutation_handler consul_url none = http_error 400
  mutation_handler consul_url (some body) = review consul_url (decode body)

  -- The answer to a body, by what it decodes to.
  abbrev pub IsHandled : String → String → Handled → Type 0
  IsHandled body patch handled =
      ((decode body ≡ none) × (handled ≡ http_error 400))
      ⊎ (((decode body ≡ some none) × (handled ≡ panicked))
          ⊎ ((request : AdmissionRequest) × (decode body ≡ some (some request))
              × (((unmarshal request.raw ≡ none) × (handled ≡ http_error 400))
                  ⊎ ((annotations : Map String String) × (unmarshal request.raw ≡ some annotations)
                      × ((text : String) × (handled ≡ written text)
                          × (marshal (
                                review_of request
                                  (if wants_registration annotations then some patch else none))
                              ≡ some text))))))

  -- Where the patch and the review that are built can be encoded, the handler writes a review for each
  -- body that decodes to a request with a pod: it allows the pod under the request's identifier, and it
  -- has the patch for registration just if the pod's annotation `consul-register` is `true`. A body
  -- that does not decode, or whose pod does not, gets the status 400, but a review without a request
  -- makes the handler panic.
  pub mutation_handler-IsHandled :
      (consul_url body patch : String)
      → marshal_patch (init_container_patch consul_url) ≡ some patch
      → ((r : AdmissionReview) → (text : String) × (marshal r ≡ some text))
      → IsHandled body patch (mutation_handler consul_url (some body))
  unfolding mutation_handler respond
  mutation_handler-IsHandled consul_url body patch patched encodes =
      review-IsHandled (decode body) refl
    where
      respond-IsHandled :
          (request : AdmissionRequest) (annotations : Map String String) (wanted : Bool)
          → decode body ≡ some (some request)
          → unmarshal request.raw ≡ some annotations
          → wants_registration annotations ≡ wanted
          → IsHandled body patch
              (respond request wanted (marshal_patch (init_container_patch consul_url)))
      respond-IsHandled request annotations true decoded read wanted =
          let (text, e) = encodes (review_of request (some patch)) in
          rw (patched, e)
            (inr
              (inr (request, decoded, inr (annotations, read, (text, refl, rw (wanted, e) refl)))))
      respond-IsHandled request annotations false decoded read wanted =
          let (text, e) = encodes (review_of request none) in
          rw e (
            inr
              (inr (request, decoded, inr (annotations, read, (text, refl, rw (wanted, e) refl)))))

      pod-IsHandled :
          (request : AdmissionRequest) (o : Option (Map String String))
          → decode body ≡ some (some request)
          → unmarshal request.raw ≡ o
          → IsHandled body patch (review_pod consul_url request o)
      pod-IsHandled request none decoded read = inr (inr (request, decoded, inl (read, refl)))
      pod-IsHandled request (some annotations) decoded read =
          respond-IsHandled request annotations (wants_registration annotations) decoded read refl

      review-IsHandled :
          (o : Option (Option AdmissionRequest))
          → decode body ≡ o
          → IsHandled body patch (review consul_url o)
      review-IsHandled none decoded = inl (decoded, refl)
      review-IsHandled (some none) decoded = inr (inl (decoded, refl))
      review-IsHandled (some (some request)) decoded =
          pod-IsHandled request (unmarshal request.raw) decoded refl
