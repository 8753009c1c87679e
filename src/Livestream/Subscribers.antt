-- ===== src/Livestream/Subscribers.antt =====
-- internal/livestream/manager.go: how many subscribers there are after each change of their list.
use mathlib.Core.Option
use fragata.Base.{
  ℕ, suc, ◌+◌, ◌≡◌, refl, List, [], ◌∷◌, Bytes, Option, none, some, length, true, ◌==◌, arith,
  split_if, split_option,
}
use fragata.Livestream.Manager.{Frame, Subscriber, any_closing}
use fragata.Livestream.Sessions.{start_all, send_start, leave, push_all, receive_frame, enter_close}

-- One of so many left, if any did; and as many were started.
abbrev pub Leaves : ℕ → Option (Subscriber × List Subscriber) → Type 0
Leaves k none = Unit
Leaves k (some (sub, others)) = length others + 1 ≡ k

pub leave-Leaves : (id : ℕ) (subs : List Subscriber) → Leaves (length subs) (leave id subs)
unfolding leave
leave-Leaves id [] = tt
leave-Leaves id (x ∷ subs) =
    split_if (Leaves (suc (length subs))) (x.id == id) _ _ (λ e. omega arith)
      (λ e. behind (leave id subs) (leave-Leaves id subs))
  where
    behind :
        (o : Option (Subscriber × List Subscriber))
        → Leaves (length subs) o
        → Leaves (suc (length subs)) (Option.map (λ found. (found.0, x ∷ found.1)) o)
    behind none h = tt
    behind (some found) h = omega (arith, h)

abbrev pub Starts : ℕ → Option (List Subscriber) → Type 0
Starts k none = Unit
Starts k (some started) = length started ≡ k

pub start_all-Starts :
    (metadata init_segment : Bytes) (subs : List Subscriber)
    → Starts (length subs) (start_all metadata init_segment subs)
unfolding start_all
start_all-Starts metadata init_segment [] = refl
start_all-Starts metadata init_segment (x ∷ subs) =
    split_option (Starts (suc (length subs))) (send_start metadata init_segment x) _ _ (λ e. tt)
      (λ started e.
        behind started (start_all metadata init_segment subs)
          (start_all-Starts metadata init_segment subs))
  where
    behind :
        (started : Subscriber) (o : Option (List Subscriber))
        → Starts (length subs) o
        → Starts (suc (length subs)) (Option.map (λ others. started ∷ others) o)
    behind started none h = tt
    behind started (some others) h = omega (arith, h)

pub length-push_all :
    (f : Frame) (subs : List Subscriber)
    → length (push_all f subs).0 + length (push_all f subs).1 ≡ length subs
unfolding push_all
length-push_all f [] = omega arith
length-push_all f (x ∷ subs) = ground (arith, length-push_all f subs)

pub length-receive_frame :
    (id : ℕ) (subs : List Subscriber) → length (receive_frame id subs) ≡ length subs
unfolding receive_frame
length-receive_frame id [] = refl
length-receive_frame id (x ∷ subs) = ground (arith, length-receive_frame id subs)

pub length-enter_close :
    (id : ℕ) (subs : List Subscriber) → length (enter_close id subs) ≡ length subs
unfolding enter_close
length-enter_close id [] = refl
length-enter_close id (x ∷ subs) = ground (arith, length-enter_close id subs)

pub any_closing-push_all :
    (f : Frame) (subs : List Subscriber)
    → any_closing (push_all f subs).1 ≡ true
    → any_closing subs ≡ true
unfolding push_all any_closing
any_closing-push_all f [] h = h
any_closing-push_all f (x ∷ subs) h = ground (arith, h, any_closing-push_all f subs)
