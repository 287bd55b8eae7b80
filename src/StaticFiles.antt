-- ===== src/StaticFiles.antt =====
-- server/src/static_files.cpp.
pub mod Segments
use servertech_chat.Prelude.{
  ◌&&◌, ◌||◌, ◌==◌, Bool, true, false, not, Bytes, codes, List, [], ◌∷◌, ◌++◌, str_eq,
  if◌then◌else◌,
}
use servertech_chat.RequestContext.{
  Response, ResponseBuilder, FileSystem, file_response, method_not_allowed, bad_request_text,
}

-- boost::beast::http::verb, as far as the program tells verbs apart.
pub data Verb : Type 0 where
  get head post other : Verb

-- What the program uses of the URL that Boost.URL parses: its decoded segments and path.
pub record Target : Type 0 where
  pub segments : List Bytes
  pub empty : Bool
  pub is_path_absolute : Bool
  pub path : Bytes

-- `if (result.back() == path_separator) result.resize(result.size() - 1)`
unfoldable pub without_separator : Bytes → Bytes
without_separator [] = []
without_separator (c ∷ []) = if c == b'/' then [] else c ∷ []
without_separator (c ∷ d ∷ base) = c ∷ without_separator (d ∷ base)

unfoldable pub path_cat : Bytes → Bytes → Bytes
unfolding without_separator
path_cat [] path = path
path_cat (c ∷ base) path = without_separator (c ∷ base) ++ path

-- `find("..") != npos`
unfoldable pub has_dots : Bytes → Bool
has_dots [] = false
has_dots (c ∷ []) = false
has_dots (c ∷ d ∷ path) = (c == b'.' && d == b'.') || has_dots (d ∷ path)

abbrev pub served : Verb → Bool
served get = true
served head = true
served post = false
served other = false

abbrev pub is_head : Verb → Bool
is_head get = false
is_head head = true
is_head post = false
is_head other = false

abbrev pub or_index : Bytes → Bytes
or_index target_path = if str_eq target_path (codes "/") then codes "/index.html" else target_path

-- How the checks end: with a response, or with the path of the file.
pub data Checked : Type 0 where
  responds : Response → Checked
  serves : Bytes → Checked

unfoldable pub file_path : FileSystem → Bytes → Verb → Target → ResponseBuilder → Checked
unfolding path_cat has_dots str_eq
file_path files doc_root method target resp =
    let path = path_cat doc_root (or_index target.path) in
    if not (served method)
    then responds (method_not_allowed resp)
    else if target.empty || (not target.is_path_absolute || has_dots target.path)
    then responds (bad_request_text (codes "Illegal request-target") resp)
    else serves (if files.extension_empty path then path ++ codes ".html" else path)

unfoldable pub handle_static_file : FileSystem → Bytes → Verb → Target → ResponseBuilder → Response
unfolding file_path file_response
handle_static_file files doc_root method target resp =
    elim (file_path files doc_root method target resp) [
      | serves path ↦ file_response files path (is_head method) resp
      | responds res ↦ res
    ]
