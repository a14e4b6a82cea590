-- ===== src/WaitingRoom/Answers.antt =====
-- cmd/waiting-room-api/main.go: what an answer of the waiting room is worth.
use flashsale_reservation.Prelude.{ℕ, ◌≡◌, ◌≢◌, ◌⊎◌, inl, inr, refl, true, false, length, arith}
use flashsale_reservation.Prelude.Int.{ℤ, pos}
use flashsale_reservation.Prelude.Text.{Text, text_eq_self}
use flashsale_reservation.Prelude.Result.{ok}
use flashsale_reservation.Redis.{
  Redis, Link, up, cut, lost, again, read, write, queue_depth_key, set_queue_depth, get_queue_depth,
}
use flashsale_reservation.Checkout
use flashsale_reservation.Checkout.{is_empty, Response, admit, reserve, submit}
use flashsale_reservation.Admission.{asked_depth, Registry, serve, turn}
use flashsale_reservation.Admission.Items.{line, serve-same}
use flashsale_reservation.WaitingRoom.{queue_depth, depth, handle_queue_depth}

cached_depth :
    (link : Link) (now : ℤ) (item : Text) (n : ℕ) (r : Redis)
    → (link ≢ up)
      ⊎ (get_queue_depth up now item (set_queue_depth link item (pos n) r).1 ≡ ok (pos n))
unfolding set_queue_depth get_queue_depth read write
cached_depth up now item n r = inr (ground (arith, text_eq_self (queue_depth_key item)))
cached_depth cut now item n r = inl (λ e. cc)
cached_depth lost now item n r = inl (λ e. cc)
cached_depth (again link) now item n r = inl (λ e. cc)

-- When the admitter answers, the queue endpoint for an item answers the number of buyers in the
-- item's line and leaves that line as it was, and when its write to Redis is answered the same
-- number can be read there.
pub handle_queue_depth_reports :
    (link : Link) (now : ℤ) (item : Text) (reg : Registry) (r : Redis)
    → is_empty item ≡ false
    → let n = length (line item reg).queue in
      let (answer, reg', r') = handle_queue_depth true link item reg r in
      (answer ≡ queue_depth (record { item_id = item; waiting = n }))
      × (line item reg' ≡ line item reg)
      × ((link ≢ up) ⊎ (get_queue_depth up now item r' ≡ ok (pos n)))
unfolding handle_queue_depth depth serve turn
handle_queue_depth_reports link now item reg r h = rw h (
  refl,
  serve-same item asked_depth reg,
  cached_depth link now item (length (line item reg).queue) r,
)
