-- ===== src/StaticFiles/Segments.antt =====
-- Which files are served: the segments of their paths.
use servertech_chat.Prelude.{
  ℕ, ◌==◌, ◌||◌, not, Bool, true, false, Bool-cases, Bytes, codes, List, [], ◌∷◌, ◌++◌,
  append_assoc, str_eq, All, if◌then◌else◌, ◌≡◌, ◌≢◌, ◌⊎◌, inl, inr, refl, ap, sym, ◌∙◌, subst,
  arith,
}
use servertech_chat.RequestContext.{Response, ResponseBuilder, FileSystem}
use servertech_chat.StaticFiles.{
  Verb, Target, served, without_separator, path_cat, has_dots, or_index, responds, serves,
  file_path,
}

-- A character in front of the first segment.
abbrev in_front : ℕ → List Bytes → List Bytes
in_front c [] = (c ∷ []) ∷ []
in_front c (seg ∷ segs) = (c ∷ seg) ∷ segs

-- The segments of a path.
unfoldable pub segments : Bytes → List Bytes
segments [] = [] ∷ []
segments (c ∷ path) = let rest = segments path in if c == b'/' then [] ∷ rest else in_front c rest

abbrev pub IsChild : Bytes → Type 0
IsChild seg = seg ≢ codes ".."

-- The first segment, and the others.
abbrev head : List Bytes → Bytes
head [] = []
head (seg ∷ segs) = seg

abbrev tail : List Bytes → List Bytes
tail [] = []
tail (seg ∷ segs) = segs

slash : (c : ℕ) → (c == b'/') ≡ true → (path : Bytes) → segments (c ∷ path) ≡ [] ∷ segments path
unfolding segments
slash c h path = rw h refl

other :
    (c : ℕ)
    → (c == b'/') ≡ false
    → (path : Bytes) → segments (c ∷ path) ≡ in_front c (segments path)
unfolding segments
other c h path = rw h refl

segments-cases :
    (c : ℕ) (path : Bytes)
    → (segments (c ∷ path) ≡ [] ∷ segments path)
      ⊎ (segments (c ∷ path) ≡ in_front c (segments path))
segments-cases c path = elim (Bool-cases (c == b'/')) [
  | inl s ↦ inl (slash c s path)
  | inr o ↦ inr (other c o path)
]

head-in_front : (c : ℕ) (l : List Bytes) → head (in_front c l) ≡ c ∷ head l
head-in_front c [] = refl
head-in_front c (seg ∷ segs) = refl

-- A path starts with its first segment.
head-segments :
    (d : ℕ) (rest path : Bytes)
    → head (segments path) ≡ d ∷ rest
    → (more : Bytes) × (path ≡ d ∷ more)
head-segments d rest [] h = unfold segments in cc h
head-segments d rest (x ∷ path) h = elim (segments-cases x path) [
  | inl e ↦ let bad : [] ≡ d ∷ rest = sym (ap head e) ∙ h in cc bad
  | inr e ↦
      let eq : x ∷ head (segments path) ≡ d ∷ rest =
        sym (head-in_front x (segments path)) ∙ (sym (ap head e) ∙ h) in
      let same : x ≡ d = cc eq in (path, ap (λ y. y ∷ path) same)
]

All-in_front :
    (c : ℕ) (l : List Bytes) → IsChild (c ∷ head l) → All IsChild l → All IsChild (in_front c l)
All-in_front c [] h hs = (h, tt)
All-in_front c (seg ∷ segs) h (k, hs) = (h, hs)

-- One character more in front.
segments-IsChild :
    (c : ℕ) (path : Bytes)
    → (head (segments path) ≡ codes "." → c ≢ b'.')
    → All IsChild (segments path)
    → All IsChild (segments (c ∷ path))
segments-IsChild c path h hs = elim (segments-cases c path) [
  | inl e ↦ subst (All IsChild) (sym e) ((λ k. cc k), hs)
  | inr e ↦ subst (All IsChild) (sym e) (
      All-in_front c (segments path)
        (λ k.
          let dot : c ≡ b'.' = cc k in
          let other : head (segments path) ≡ codes "." = cc k in h other dot)
        hs)
]

has_dots-tail :
    (c d : ℕ) (path : Bytes) → has_dots (c ∷ d ∷ path) ≡ false → has_dots (d ∷ path) ≡ false
unfolding has_dots
has_dots-tail c d path h = ground (arith, h)

has_dots-pair :
    (c d : ℕ) (path : Bytes)
    → has_dots (c ∷ d ∷ path) ≡ false
    → head (segments (d ∷ path)) ≡ codes "."
    → c ≢ b'.'
unfolding has_dots
has_dots-pair c d path h k dot =
    let (more, e) = head-segments b'.' [] (d ∷ path) k in
    let d_dot : d ≡ b'.' = cc e in
    let pair : has_dots (c ∷ d ∷ path) ≡ true = rw (dot, d_dot) refl in cc (pair, h)

-- A path without two points in a row has no such segment,
has_dots-IsChild : (path : Bytes) → has_dots path ≡ false → All IsChild (segments path)
has_dots-IsChild [] h = unfold segments in ((λ k. cc k), tt)
has_dots-IsChild (c ∷ []) h =
    segments-IsChild c [] (λ k. unfold segments in cc k)
      (has_dots-IsChild [] (unfold has_dots in refl))
has_dots-IsChild (c ∷ d ∷ path) h =
    segments-IsChild c (d ∷ path) (has_dots-pair c d path h)
      (has_dots-IsChild (d ∷ path) (has_dots-tail c d path h))

abbrev html : Bytes
html = codes ".html"

head-html-nil : (q : Bytes) → head (segments (q ++ html)) ≡ [] → head (segments q) ≡ []
head-html-nil [] h = unfold segments in refl
head-html-nil (x ∷ q) h = elim (Bool-cases (x == b'/')) [
  | inl s ↦ ap head (slash x s q)
  | inr o ↦
      let bad : x ∷ head (segments (q ++ html)) ≡ [] =
        sym (head-in_front x (segments (q ++ html)))
        ∙ (sym (ap head (other x o (q ++ html))) ∙ h) in
      cc bad
]

head-html : (d : ℕ) (q : Bytes) → head (segments (q ++ html)) ≡ d ∷ [] → head (segments q) ≡ d ∷ []
head-html d [] h = unfold segments in cc h
head-html d (x ∷ q) h = elim (Bool-cases (x == b'/')) [
  | inl s ↦ let bad : [] ≡ d ∷ [] = sym (ap head (slash x s (q ++ html))) ∙ h in cc bad
  | inr o ↦
      let eq : x ∷ head (segments (q ++ html)) ≡ d ∷ [] =
        sym (head-in_front x (segments (q ++ html)))
        ∙ (sym (ap head (other x o (q ++ html))) ∙ h) in
      let same : x ≡ d = cc eq in
      let none_left : head (segments (q ++ html)) ≡ [] = cc eq in
      ap head (other x o q)
      ∙ (head-in_front x (segments q) ∙ rw (same, head-html-nil q none_left) refl)
]

-- nor has it with the extension behind it.
html-IsChild : (path : Bytes) → has_dots path ≡ false → All IsChild (segments (path ++ html))
html-IsChild [] h = unfold segments in ((λ k. cc k), tt)
html-IsChild (c ∷ []) h =
    segments-IsChild c html (λ k. unfold segments in cc k)
      (html-IsChild [] (unfold has_dots in refl))
html-IsChild (c ∷ d ∷ path) h =
    segments-IsChild c (d ∷ path ++ html)
      (λ k. has_dots-pair c d path h (head-html b'.' (d ∷ path) k))
      (html-IsChild (d ∷ path) (has_dots-tail c d path h))

index-dots : (path : Bytes) → has_dots path ≡ false → has_dots (or_index path) ≡ false
index-dots path h = index (str_eq path (codes "/"))
  where
    index : (b : Bool) → has_dots (if b then codes "/index.html" else path) ≡ false
    index true = unfold has_dots in refl
    index false = h

-- Some path below the document root, as path_cat joins them.
abbrev pub IsBelow : Bytes → Bytes → Type 0
IsBelow root path = (rest : Bytes) × (path ≡ path_cat root rest) × All IsChild (segments rest)

path_cat-append : (root path ext : Bytes) → path_cat root path ++ ext ≡ path_cat root (path ++ ext)
unfolding path_cat
path_cat-append [] path ext = refl
path_cat-append (c ∷ root) path ext = append_assoc (without_separator (c ∷ root)) path ext

-- Inversion of the checks.
serves-eq :
    (a b c : Bool) (r1 r2 : Response) (p q path : Bytes)
    → (if a then responds r1 else if b then responds r2 else serves (if c then p else q))
      ≡ serves path
    → (b ≡ false) × ((p ≡ path) ⊎ (q ≡ path))
serves-eq true b c r1 r2 p q path h = cc h
serves-eq false true c r1 r2 p q path h = cc h
serves-eq false false true r1 r2 p q path h = (refl, inl (cc h))
serves-eq false false false r1 r2 p q path h = (refl, inr (cc h))

last_of_three : (a b c : Bool) → (a || (b || c)) ≡ false → c ≡ false
last_of_three a b c h = ground (arith, h)

-- The path of a file that is served is the document root joined, as path_cat joins, with a path of
-- which no segment is two points.
pub file_path-IsBelow :
    (files : FileSystem) (doc_root : Bytes) (method : Verb) (target : Target)
    (resp : ResponseBuilder) (path : Bytes)
    → file_path files doc_root method target resp ≡ serves path
    → IsBelow doc_root path
unfolding file_path
file_path-IsBelow files doc_root method target resp path h =
    let file = path_cat doc_root (or_index target.path) in
    let (allowed, which) =
      serves-eq (not (served method))
        (target.empty || (not target.is_path_absolute || has_dots target.path))
        (files.extension_empty file) _ _ (file ++ html) file path h in
    let plain =
      index-dots target.path
        (last_of_three target.empty (not target.is_path_absolute) (has_dots target.path) allowed) in
    elim which [
      | inl e ↦ (
        or_index target.path ++ html,
        sym e ∙ path_cat-append doc_root (or_index target.path) html,
        html-IsChild (or_index target.path) plain,
      )
      | inr e ↦ (or_index target.path, sym e, has_dots-IsChild (or_index target.path) plain)
    ]
