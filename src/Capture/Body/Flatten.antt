-- ===== src/Capture/Body/Flatten.antt =====
-- Snapshots of a body, src/capture/model.rs: `flatten` of a preview is the content, and sealing a body
-- does not change what a preview shows.
use fluxcope.Common.{
  ◌≡◌, refl, sym, ap, ◌∙◌, List, [], ◌∷◌, ◌++◌, length, inl, inr, arith, ◌==◌, if◌then◌else◌,
  Bool-cases, append_assoc, append-nil, take_all,
}
use mathlib.Core.Path.{ap₂}
use mathlib.Core.List.{reverse, reverse-append}
use fluxcope.Capture.Body.{
  Bytes, BodyChunkNode, no_chunk, chunk, BodyCapture, seal, preview, walk_back, chunks, extend_all,
  flatten,
}
use fluxcope.Capture.Body.Content.{chain_bytes, tail_bytes, content, IsOpen}

-- the pieces one after another
abbrev joined : List Bytes → Bytes
joined [] = []
joined (c ∷ cs) = c ++ joined cs

extend_all-joined : (acc : Bytes) (cs : List Bytes) → extend_all acc cs ≡ acc ++ joined cs
unfolding extend_all
extend_all-joined acc [] = sym (append-nil acc)
extend_all-joined acc (c ∷ cs) = extend_all-joined (acc ++ c) cs ∙ append_assoc acc c (joined cs)

joined-append : (xs ys : List Bytes) → joined (xs ++ ys) ≡ joined xs ++ joined ys
joined-append [] ys = refl
joined-append (x ∷ xs) ys =
    ap (λ l. x ++ l) (joined-append xs ys) ∙ sym (append_assoc x (joined xs) (joined ys))

joined-walk_back : (tail : BodyChunkNode) → joined (reverse (walk_back tail)) ≡ chain_bytes tail
unfolding walk_back
joined-walk_back no_chunk = refl
joined-walk_back (chunk previous bytes count) =
    ap joined (reverse-append (bytes ∷ []) (walk_back previous))
    ∙ joined-append (reverse (walk_back previous)) (bytes ∷ [])
    ∙ ap₂ (λ l r. l ++ r) (joined-walk_back previous) (append-nil bytes)

trailing_piece : (t : Bytes) → joined (if length t == 0 then [] else t ∷ []) ≡ t
trailing_piece [] = refl
trailing_piece (x ∷ xs) = ground (arith, append-nil (x ∷ xs))

-- Flattening the preview of any body gives its content: the chunks of the chain, oldest first, then the
-- sealed or the trailing piece.
pub flatten-preview : (body : BodyCapture) → flatten (preview body) ≡ content body
unfolding flatten preview
flatten-preview body =
    let p = preview body in
    extend_all-joined [] (chunks p)
    ∙ joined-append (reverse (walk_back p.canonical_tail))
        (if length p.trailing == 0 then [] else p.trailing ∷ [])
    ∙ ap₂ (λ l r. l ++ r) (joined-walk_back p.canonical_tail) (trailing_piece p.trailing)

-- Sealing an open body keeps its content and its status.
pub seal-content :
    (body : BodyCapture)
    → IsOpen body
    → (content (seal body) ≡ content body) × ((seal body).status ≡ body.status)
unfolding seal
seal-content body o = elim (Bool-cases (length body.trailing == 0)) [
  | inl empty ↦ rw empty (refl, refl)
  | inr held ↦ rw held (
    ap (λ l. chain_bytes body.canonical_tail ++ l)
        (take_all (length body.trailing) body.trailing (omega arith) ∙ open_tail),
    refl,
  )
]
  where
    open_tail : body.trailing ≡ tail_bytes body
    open_tail = rw o.unsealed
