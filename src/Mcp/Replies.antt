-- ===== src/Mcp/Replies.antt =====
-- mcp_server.py, `handle`: who gets an answer, and under which id.
use vigil_sre.Prelude.{
  ◌≡◌, refl, ap, ◌∙◌, ◌↔◌, inl, inr, String, Bool, true, false, Option, none, some, List, eq_iff,
  if◌then◌else◌, Bool-cases, Option-cases,
}
use vigil_sre.Prelude.Dict.{lookup}
use vigil_sre.Targets.Value.{
  Value, null, text, boolean, integer, decimal, non_finite, array, object, Fields, items,
}
use vigil_sre.Mcp.Tools.{Server, Called, returned, invalid_parameters, raised}
use vigil_sre.Mcp.{
  Reply, result, error, is_valid_id, is_text, is_version_2, answer_of, answer_with, answer, handle,
  invalid_params, method_not_found,
}

abbrev pub reply_id : Reply → Value
reply_id (result id r) = id
reply_id (error id code) = id

-- A well-formed request with this id.
pub record IsRequest (fs : List (String × Value)) (id : Value) : Type 0 where
  pub name : String
  pub method : lookup "method" fs ≡ some (text name)
  pub version : lookup "jsonrpc" fs ≡ some (text "2.0")
  pub with_id : lookup "id" fs ≡ some id
  pub valid : is_valid_id id ≡ true

-- A request without an id.
pub record IsNotification (fs : List (String × Value)) : Type 0 where
  pub method : is_text (lookup "method" fs) ≡ true
  pub version : lookup "jsonrpc" fs ≡ some (text "2.0")
  pub without_id : lookup "id" fs ≡ none

answer_of-id : (id : Value) (c : Option Called) → reply_id (answer_of id c) ≡ id
answer_of-id id none = refl
answer_of-id id (some (returned r)) = refl
answer_of-id id (some invalid_parameters) = refl
answer_of-id id (some raised) = refl

refused-id :
    (id : Value) (b : Bool)
    → reply_id (if b then error id invalid_params else error id method_not_found) ≡ id
refused-id id true = refl
refused-id id false = refl

answer_with-id :
    (s : Server) (id : Value) (name : String) (ps : Option Value)
    → reply_id (answer_with s id name ps) ≡ id
answer_with-id s id name none = answer_of-id id _
answer_with-id s id name (some (object fs)) = answer_of-id id _
answer_with-id s id name (some null) = refused-id id _
answer_with-id s id name (some (text t)) = refused-id id _
answer_with-id s id name (some (boolean b)) = refused-id id _
answer_with-id s id name (some (integer n)) = refused-id id _
answer_with-id s id name (some (decimal m p)) = refused-id id _
answer_with-id s id name (some (non_finite x)) = refused-id id _
answer_with-id s id name (some (array vs)) = refused-id id _

pub handle-IsRequest :
    (s : Server) (fs : Fields) (id : Value)
    → IsRequest (items fs) id
    → (r : Reply) × (handle s (object fs) ≡ some r) × (reply_id r ≡ id)
unfolding handle
handle-IsRequest s fs id q =
    let same : reply_id (answer s (items fs) id (lookup "method" (items fs))) ≡ id =
      ap (λ (m : Option Value). reply_id (answer s (items fs) id m)) q.method
      ∙ answer_with-id s id q.name (lookup "params" (items fs)) in
    rw (ap is_text q.method, ap is_version_2 q.version, q.with_id, q.valid) (_, refl, same)

version_lem : (v : Option Value) → is_version_2 v ≡ true → v ≡ some (text "2.0")
version_lem (some (text t)) h = ap (λ x. some (text x)) ((eq_iff t "2.0").0 h)
version_lem none h = cc
version_lem (some null) h = cc
version_lem (some (boolean b)) h = cc
version_lem (some (integer n)) h = cc
version_lem (some (decimal m p)) h = cc
version_lem (some (non_finite x)) h = cc
version_lem (some (array vs)) h = cc
version_lem (some (object fs)) h = cc

handle-none : (s : Server) (fs : Fields) → handle s (object fs) ≡ none → IsNotification (items fs)
unfolding handle
handle-none s fs h = elim (Bool-cases (is_text (lookup "method" (items fs)))) [
  | inr m ↦ cc (rw m at h)
  | inl m ↦ elim (Bool-cases (is_version_2 (lookup "jsonrpc" (items fs)))) [
    | inr v ↦ cc (rw (m, v) at h)
    | inl v ↦ elim (Option-cases (lookup "id" (items fs))) [
      | inr (id, e) ↦ cc (rw (m, v, e) at h)
      | inl e ↦ record {
        method = m;
        version = version_lem (lookup "jsonrpc" (items fs)) v;
        without_id = e;
      }
    ]
  ]
]

handle-IsNotification :
    (s : Server) (fs : Fields) → IsNotification (items fs) → handle s (object fs) ≡ none
unfolding handle
handle-IsNotification s fs n = rw (n.method, n.version, n.without_id) refl

-- A message that is a dict gets no answer exactly if it is a notification: a JSON-RPC 2.0 request
-- with a method and without an id.
pub handle_lem :
    (s : Server) (fs : Fields) → (handle s (object fs) ≡ none) ↔ IsNotification (items fs)
handle_lem s fs = (handle-none s fs, handle-IsNotification s fs)
