-- ===== src/Server/Http.antt =====
-- `callback_http` of src/WebServer/WebServerLWS.cpp: which file a request is answered with. What
-- `libwebsockets_serve_http_file` returns is the argument `serve_file`: true for zero, when there
-- is more to send.
use ir_pit_crew.Prelude.{
  ◌≡◌, refl, ◌∙◌, Bool, true, false, List, [], ◌∷◌, ◌++◌, ◌==◌, is_empty, if◌then◌else◌, Bool-cases,
  inl, inr, ◌⊎◌,
}
use ir_pit_crew.Prelude.Text.{text_eq_iff, Text, codes, text_eq, find_text, contains, starts_with}

-- `s.rfind(".")` and `s.substr(pos, …)`: from the last dot on, or empty if there is none.
unfoldable pub extension : Text → Text
extension [] = []
extension (c ∷ s) =
    let rest = extension s in if is_empty rest then (if c == b'.' then c ∷ s else []) else rest

unfoldable pub mime_type : Text → Text
mime_type ext =
    if is_empty ext
    then codes "text/plain"
    else if text_eq ext (codes ".png")
    then codes "image/png"
    else if text_eq ext (codes ".jpg")
    then codes "image/jpg"
    else if text_eq ext (codes ".gif")
    then codes "image/gif"
    else if text_eq ext (codes ".html")
    then codes "text/html"
    else if text_eq ext (codes ".css")
    then codes "text/css"
    else if text_eq ext (codes ".js")
    then codes "text/javascript"
    else codes "text/plain"

pub record Served : Type 0 where
  pub path : Text
  pub mime : Text

abbrev pub base_directory : Text
base_directory = codes "./Client"

-- The branch of a request for something other than the root.
unfoldable pub resource : Text → Served
unfolding contains extension mime_type
resource uri =
    let name = if contains (codes "..") uri then [] else uri in
    let path = base_directory ++ name in record { path = path; mime = mime_type (extension path) }

-- The file for a request. The test `strFileName.length() < 0` of an unsigned length never holds.
unfoldable pub requested : Text → Served
unfolding resource
requested uri =
    if text_eq uri (codes "/")
    then record { path = base_directory ++ uri ++ codes "irPitCrew.html"; mime = codes "text/html" }
    else resource uri

pub data HttpReason : Type 0 where
  client_writable : HttpReason
  http : Text → HttpReason
  get_thread_id : HttpReason
  other : HttpReason

-- The files that were served, and whether the callback returns 0 (true) or -1, which closes the
-- socket.
unfoldable pub callback_http : (Served → Bool) → HttpReason → List Served × Bool
unfolding requested
callback_http serve_file (http uri) = let file = requested uri in (file ∷ [], serve_file file)
callback_http serve_file client_writable = ([], true)
callback_http serve_file get_thread_id = ([], true)
callback_http serve_file other = ([], true)

no_dot_dot :
    (uri : Text) → contains (codes "..") (base_directory ++ uri) ≡ contains (codes "..") uri
unfolding contains find_text starts_with
no_dot_dot uri = refl

no_dot_dot_at_all : contains (codes "..") (base_directory ++ []) ≡ false
unfolding contains starts_with
no_dot_dot_at_all = refl

abbrev IsConfined : Text → Type 0
IsConfined path =
    ((starts_with (codes "./Client/") path ≡ true) ⊎ (path ≡ codes "./Client"))
    × (contains (codes "..") path ≡ false)

below :
    (uri : Text)
    → starts_with (codes "/") uri ≡ true
    → starts_with (codes "./Client/") (base_directory ++ uri) ≡ true
unfolding starts_with
below [] h = h
below (c ∷ uri) h = h

resource-IsConfined :
    (uri : Text) → starts_with (codes "/") uri ≡ true → IsConfined (resource uri).path
unfolding resource
resource-IsConfined uri slash = elim (Bool-cases (contains (codes "..") uri)) [
  | inl up ↦ rw up (inr refl, no_dot_dot_at_all)
  | inr fine ↦ rw fine (inl (below uri slash), no_dot_dot uri ∙ fine)
]

requested-IsConfined :
    (uri : Text) → starts_with (codes "/") uri ≡ true → IsConfined (requested uri).path
unfolding requested starts_with contains
requested-IsConfined uri slash = elim (Bool-cases (text_eq uri (codes "/"))) [
  | inl root ↦ rw (root, (text_eq_iff uri (codes "/")).0 root) (inl refl, refl)
  | inr named ↦ rw named (resource-IsConfined uri slash)
]

-- Every file that is served for a URI that begins with `/` stands under ./Client, by a path that does
-- not step up: it begins with the directory and a slash, or is the directory itself, and has no `..`.
pub callback_http_confined :
    (serve_file : Served → Bool) (uri : Text) (file : Served)
    → starts_with (codes "/") uri ≡ true
    → (callback_http serve_file (http uri)).0 ≡ file ∷ []
    → ((starts_with (codes "./Client/") file.path ≡ true) ⊎ (file.path ≡ codes "./Client"))
      × (contains (codes "..") file.path ≡ false)
unfolding callback_http
callback_http_confined serve_file uri file slash e =
    let same : requested uri ≡ file = cc in rw same at (requested-IsConfined uri slash)

-- A request with no `..` in it is answered with the file that it names below ./Client, and a request
-- for the root with the page of the application; one with `..` names the directory itself.
pub path-requested :
    (uri : Text)
    → (requested uri).path ≡ (
        if text_eq uri (codes "/")
        then codes "./Client/irPitCrew.html"
        else if contains (codes "..") uri
        then codes "./Client"
        else codes "./Client" ++ uri)
unfolding requested
path-requested uri = elim (Bool-cases (text_eq uri (codes "/"))) [
  | inl root ↦ rw (root, (text_eq_iff uri (codes "/")).0 root) refl
  | inr named ↦ rw named (elim (Bool-cases (contains (codes "..") uri)) [
    | inl up ↦ rw up refl
    | inr fine ↦ rw fine refl
  ])
]
