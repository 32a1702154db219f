-- ===== src/XmlParser/Building.antt =====
-- Writes through the current token, one after the other.
use mws.Prelude.{ℕ, zero, suc, ◌≡◌, refl, ap, fun_ext, ◌≡⟨◌⟩◌, ◌∎}
use mws.Prelude.Bytes.{Bytes}
use mws.Types.CmmlToken.{CmmlToken, Tokens, token, nil, cons, push_back, new_child_node}
use mws.XmlParser.{update_at, update_last}
use mws.XmlParser.Document.{add_child}

mutual
  unfolding update_at update_last

  pub update_at_compose :
      (d : ℕ) (f g : CmmlToken → CmmlToken) (t : CmmlToken)
      → update_at d f (update_at d g t) ≡ update_at d (λ u. f (g u)) t
  update_at_compose zero f g t = refl
  update_at_compose (suc d) f g (token tag attrs text xpath children) =
      ap (token tag attrs text xpath) (update_last_compose d f g children)

  update_last_compose :
      (d : ℕ) (f g : CmmlToken → CmmlToken) (ts : Tokens)
      → update_last d f (update_last d g ts) ≡ update_last d (λ u. f (g u)) ts
  update_last_compose d f g nil = refl
  update_last_compose d f g (cons t nil) = ap (λ u. cons u nil) (update_at_compose d f g t)
  update_last_compose d f g (cons t (cons u nil)) =
      ap (cons t) (update_last_compose d f g (cons u nil))
  update_last_compose d f g (cons t (cons u (cons v ts))) =
      ap (cons t) (update_last_compose d f g (cons u (cons v ts)))

mutual
  unfolding update_at update_last

  update_at-suc :
      (d : ℕ) (f : CmmlToken → CmmlToken) (t : CmmlToken)
      → update_at (suc d) f t ≡ update_at d (update_at 1 f) t
  update_at-suc zero f t = refl
  update_at-suc (suc d) f (token tag attrs text xpath children) =
      ap (token tag attrs text xpath) (update_last-suc d f children)

  update_last-suc :
      (d : ℕ) (f : CmmlToken → CmmlToken) (ts : Tokens)
      → update_last (suc d) f ts ≡ update_last d (update_at 1 f) ts
  update_last-suc d f nil = refl
  update_last-suc d f (cons t nil) = ap (λ u. cons u nil) (update_at-suc d f t)
  update_last-suc d f (cons t (cons u ts)) = ap (cons t) (update_last-suc d f (cons u ts))

update_last-push_back :
    (f : CmmlToken → CmmlToken) (ts : Tokens) (c : CmmlToken)
    → update_last 0 f (push_back ts c) ≡ push_back ts (f c)
unfolding update_at update_last
update_last-push_back f nil c = refl
update_last-push_back f (cons t nil) c = refl
update_last-push_back f (cons t (cons u ts)) c = ap (cons t) (update_last-push_back f (cons u ts) c)

update_new_child :
    (digits : ℕ → Bytes) (f : CmmlToken → CmmlToken) (t : CmmlToken)
    → update_at 1 f (new_child_node digits t).0 ≡ add_child t (f (new_child_node digits t).1)
unfolding update_at new_child_node
update_new_child digits f (token tag attrs text xpath children) =
    ap (token tag attrs text xpath) (update_last-push_back f children _)

-- A child that is made, written to twice, and left: its parent has it at the end.
pub update_child :
    (digits : ℕ → Bytes) (d : ℕ) (f g h : CmmlToken → CmmlToken) (t : CmmlToken)
    → update_at d h (
        update_at
          (suc d)
          f
          (update_at (suc d) g (update_at d (λ u. (new_child_node digits u).0) t)))
      ≡ update_at d (λ u. h (add_child u (f (g (new_child_node digits u).1)))) t
update_child digits d f g h t =
    let new : CmmlToken → CmmlToken = λ u. (new_child_node digits u).0 in
    update_at d h (update_at (suc d) f (update_at (suc d) g (update_at d new t)))
    ≡⟨ ap (update_at d h) (update_at_compose (suc d) f g _) ⟩
      update_at d h (update_at (suc d) (λ u. f (g u)) (update_at d new t))
    ≡⟨ ap (update_at d h) (update_at-suc d (λ u. f (g u)) _) ⟩
      update_at d h (update_at d (update_at 1 (λ u. f (g u))) (update_at d new t))
    ≡⟨ ap (update_at d h) (update_at_compose d (update_at 1 (λ u. f (g u))) new t) ⟩
      update_at d h (update_at d (λ u. update_at 1 (λ w. f (g w)) (new u)) t)
    ≡⟨ update_at_compose d h (λ u. update_at 1 (λ w. f (g w)) (new u)) t ⟩
      update_at d (λ u. h (update_at 1 (λ w. f (g w)) (new u))) t
    ≡⟨ ap (λ k. update_at d k t) (fun_ext (λ u. ap h (update_new_child digits (λ w. f (g w)) u))) ⟩
      update_at d (λ u. h (add_child u (f (g (new_child_node digits u).1)))) t ∎

mutual
  unfolding update_at update_last

  pub update_at_id : (d : ℕ) (t : CmmlToken) → update_at d (λ u. u) t ≡ t
  update_at_id zero t = refl
  update_at_id (suc d) (token tag attrs text xpath children) =
      ap (token tag attrs text xpath) (update_last_id d children)

  update_last_id : (d : ℕ) (ts : Tokens) → update_last d (λ u. u) ts ≡ ts
  update_last_id d nil = refl
  update_last_id d (cons t nil) = ap (λ u. cons u nil) (update_at_id d t)
  update_last_id d (cons t (cons u ts)) = ap (cons t) (update_last_id d (cons u ts))
