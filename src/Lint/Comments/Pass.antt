-- ===== src/Lint/Comments/Pass.antt =====
-- An independent description of `RemoveMultiLineComments` of scripts/cpplint.py: one pass over the
-- lines.
use mathlib.Core.List.{append_assoc}
use gameboy_emulator.Base.{
  ℕ, suc, ◌+◌, ◌≡◌, ◌∙◌, Bool, true, false, List, [], ◌∷◌, ◌++◌, length, arith, refl, ap,
  if◌then◌else◌, ◌&&◌, not, length-append,
}
use gameboy_emulator.Base.Text.{Str, codes}
use gameboy_emulator.Lint.Suppress.{Report}
use gameboy_emulator.Lint.Comments.{opens, closes, no_end}

-- No line has a property.
unfoldable pub none_of : (Str → Bool) → List Str → Bool
none_of p [] = true
none_of p (l ∷ ls) = not (p l) && none_of p ls

abbrev pub behind : List Str → List Str × List Report → List Str × List Report
behind front r = (front ++ r.0, r.1)

-- One pass over the lines, each of which is in a comment or not. Outside of comments, a line that
-- opens one begins it if it or a line behind it closes a comment, and ends the pass with a report
-- otherwise; in a comment every line becomes an empty comment, up to the one that closes it.
unfoldable pub stripped : Bool → ℕ → List Str → List Str × List Report
unfolding none_of
stripped inside n [] = ([], [])
stripped true n (l ∷ ls) = behind (codes "/**/" ∷ []) (stripped (not (closes l)) (n + 1) ls)
stripped false n (l ∷ ls) =
    let in_comment = behind (codes "/**/" ∷ []) (stripped (not (closes l)) (n + 1) ls) in
    let in_code = behind (l ∷ []) (stripped false (n + 1) ls) in
    if opens l
    then if none_of closes (l ∷ ls) then (l ∷ ls, no_end (n + 1) ∷ []) else in_comment
    else in_code

-- The lines of a comment, each of them empty.
unfoldable pub blank : List Str → List Str
blank [] = []
blank (l ∷ ls) = codes "/**/" ∷ blank ls

pub length-blank : (lines : List Str) → length (blank lines) ≡ length lines
unfolding blank
length-blank [] = refl
length-blank (l ∷ ls) = omega (arith, length-blank ls)

-- The pass over lines of code, over a text without comments, and over the rest of a comment.
pub stripped-code :
    (front rest : List Str) (n : ℕ)
    → none_of opens front ≡ true
    → stripped false n (front ++ rest) ≡ behind front (stripped false (n + length front) rest)
unfolding stripped none_of
stripped-code [] rest n h = ap (λ (i : ℕ). stripped false i rest) (omega arith)
stripped-code (l ∷ front) rest n h =
    let plain : opens l ≡ false = ground arith in
    let tail = stripped-code front rest (n + 1) (ground arith) in
    let shift : n + 1 + length front ≡ n + suc (length front) = omega arith in
    rw (plain, tail, shift)

stripped-comment :
    (front : List Str) (last : Str) (rest : List Str) (n : ℕ)
    → none_of closes front ≡ true
    → closes last ≡ true
    → stripped true n (front ++ last ∷ rest)
      ≡ behind (blank (front ++ last ∷ [])) (stripped false (n + length front + 1) rest)
unfolding stripped none_of blank
stripped-comment [] last rest n h ends =
    let shift : n + 1 ≡ n + 0 + 1 = omega arith in rw (ends, shift)
stripped-comment (l ∷ front) last rest n h ends =
    let on : closes l ≡ false = ground arith in
    let tail = stripped-comment front last rest (n + 1) (ground arith) ends in
    let shift : n + 1 + length front + 1 ≡ n + suc (length front) + 1 = omega arith in
    rw (on, tail, shift)

none_of-found :
    (p : Str → Bool) (front : List Str) (line : Str) (rest : List Str)
    → p line ≡ true
    → none_of p (front ++ line ∷ rest) ≡ false
unfolding none_of
none_of-found p [] line rest h = ground arith
none_of-found p (l ∷ front) line rest h = ground (arith, none_of-found p front line rest h)

-- The first of some lines has a property.
unfoldable pub begins : (Str → Bool) → List Str → Bool
begins p [] = false
begins p (l ∷ ls) = p l

stripped-closed :
    (front : List Str) (last : Str) (rest : List Str) (n : ℕ)
    → begins opens (front ++ last ∷ rest) ≡ true
    → none_of closes front ≡ true
    → closes last ≡ true
    → stripped false n (front ++ last ∷ rest)
      ≡ behind (blank (front ++ last ∷ [])) (stripped false (n + length front + 1) rest)
unfolding stripped none_of blank begins
stripped-closed [] last rest n starts h ends =
    let shift : n + 1 ≡ n + 0 + 1 = omega arith in rw (starts, ends, shift)
stripped-closed (l ∷ front) last rest n starts h ends =
    let on : closes l ≡ false = ground arith in
    let tail = stripped-comment front last rest (n + 1) (ground arith) ends in
    let shift : n + 1 + length front + 1 ≡ n + suc (length front) + 1 = omega arith in
    rw (starts, on, none_of-found closes front last rest ends, tail, shift)

pub stripped-open :
    (line : Str) (rest : List Str) (n : ℕ)
    → opens line ≡ true
    → none_of closes (line ∷ rest) ≡ true
    → stripped false n (line ∷ rest) ≡ (line ∷ rest, no_end (n + 1) ∷ [])
unfolding stripped
stripped-open line rest n starts h = rw (starts, h) refl

pub stripped-none :
    (lines : List Str) (n : ℕ) → none_of opens lines ≡ true → stripped false n lines ≡ (lines, [])
unfolding stripped none_of
stripped-none [] n h = refl
stripped-none (l ∷ lines) n h =
    let plain : opens l ≡ false = ground arith in
    rw (plain, stripped-none lines (n + 1) (ground arith))

behind-behind :
    (done code comment : List Str) (r : List Str × List Report)
    → behind ((done ++ code) ++ comment) r ≡ behind done (behind code (behind comment r))
behind-behind done code comment r =
    ap (λ (w : List Str). (w, r.1))
      (append_assoc (done ++ code) comment r.0 ∙ append_assoc done code (comment ++ r.0))

-- The pass over lines of code and a comment with an end.
pub stripped-through :
    (done code front : List Str) (last : Str) (rest : List Str)
    → none_of opens code ≡ true
    → begins opens (front ++ last ∷ rest) ≡ true
    → none_of closes front ≡ true
    → closes last ≡ true
    → let passed = (done ++ code) ++ blank (front ++ last ∷ []) in
      behind passed (stripped false (length passed) rest)
      ≡ behind done (stripped false (length done) (code ++ (front ++ last ∷ rest)))
stripped-through done code front last rest plain starts h ends =
    let comment = front ++ last ∷ [] in
    let size : length ((done ++ code) ++ blank comment)
        ≡ length done + length code + length front + 1 =
      omega (
        arith,
        length-append (done ++ code) (blank comment),
        length-append done code,
        length-blank comment,
        length-append front (last ∷ []),
      ) in
    behind-behind done code (blank comment) _
    ∙ rw (
      size,
      stripped-code code (front ++ last ∷ rest) (length done) plain,
      stripped-closed front last rest (length done + length code) starts h ends,
    )
