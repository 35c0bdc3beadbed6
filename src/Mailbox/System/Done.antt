-- ===== src/Mailbox/System/Done.antt =====
-- Messages of a queue by their identifiers, and messages that are done (src/ccm_mbox.c).
use nfp_drv_kmods.Base.{ℕ, ◌≡◌, refl, ap, ◌∙◌, inl, inr, ◌⊎◌, List, [], ◌∷◌, ◌++◌}
use nfp_drv_kmods.Mailbox.{Skb, finished}

abbrev pub HasId : ℕ → List Skb → Type 0
HasId x [] = ⊥
HasId x (skb ∷ queue) = (skb.id ≡ x) ⊎ HasId x queue

-- The state of each is NFP_NET_MBOX_CMSG_STATE_DONE.
abbrev pub AllFinished : List Skb → Type 0
AllFinished [] = Unit
AllFinished (skb ∷ skbs) = (skb.state ≡ finished) × AllFinished skbs

-- What is done with a message that leaves the queue: it is the same message, and done.
pub record Concludes (f : Skb → Skb) : Type 0 where
  pub same : (skb : Skb) → (f skb).id ≡ skb.id
  pub ends : (skb : Skb) → (f skb).state ≡ finished

-- Messages that are done were put before those that were, and each message of `queue` is among them
-- or left in `rest`.
pub record Moved (queue before rest after : List Skb) : Type 0 where
  pub news : List Skb
  pub split : after ≡ news ++ before
  pub all : AllFinished news
  pub covers : (x : ℕ) → HasId x queue → HasId x news ⊎ HasId x rest

pub append_assoc : (xs ys zs : List Skb) → xs ++ (ys ++ zs) ≡ (xs ++ ys) ++ zs
append_assoc [] ys zs = refl
append_assoc (x ∷ xs) ys zs = ap (λ rest. x ∷ rest) (append_assoc xs ys zs)

pub append-AllFinished :
    (xs ys : List Skb) → AllFinished xs → AllFinished ys → AllFinished (xs ++ ys)
append-AllFinished [] ys all more = more
append-AllFinished (x ∷ xs) ys (e, all) more = (e, append-AllFinished xs ys all more)

pub HasId-left : (x : ℕ) (xs ys : List Skb) → HasId x xs → HasId x (xs ++ ys)
HasId-left x [] ys h = absurd h
HasId-left x (skb ∷ xs) ys (inl is) = inl is
HasId-left x (skb ∷ xs) ys (inr h) = inr (HasId-left x xs ys h)

pub HasId-right : (x : ℕ) (xs ys : List Skb) → HasId x ys → HasId x (xs ++ ys)
HasId-right x [] ys h = h
HasId-right x (skb ∷ xs) ys h = inr (HasId-right x xs ys h)

-- One move after another.
pub Moved-then :
    (queue before rest after rest' after' : List Skb)
    → Moved queue before rest after
    → Moved rest after rest' after'
    → Moved queue before rest' after'
Moved-then queue before rest after rest' after' a b = record {
  news = b.news ++ a.news;
  split = b.split ∙ ap (λ xs. b.news ++ xs) a.split ∙ append_assoc b.news a.news before;
  all = append-AllFinished b.news a.news b.all a.all;
  covers = λ x h. elim (a.covers x h) [
    | inl early ↦ inl (HasId-right x b.news a.news early)
    | inr left ↦ elim (b.covers x left) [
      | inl late ↦ inl (HasId-left x b.news a.news late)
      | inr later ↦ inr later
    ]
  ];
}
