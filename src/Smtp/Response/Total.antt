-- ===== src/Smtp/Response/Total.antt =====
-- apps/smtp/smtp.c: the termination of `smtp_is_response_finished`.
use scion_lwip_contrib.Base.{
  ℕ, zero, suc, ◌+◌, ◌-◌, ◌%◌, ◌≤◌, ◌<◌, ◌≢◌, none, some, Bytes, codes, length, arith,
}
use scion_lwip_contrib.Lwip.{PbufReaders, PbufLaws}
use scion_lwip_contrib.Smtp.Response.{finished_loop, smtp_is_response_finished}

module _ (pb : PbufReaders) (laws : PbufLaws pb) where
  finished_loop-ne-none :
      (fuel : ℕ) (p : Bytes) (offset : ℕ)
      → length p ≤ 65531
      → offset ≤ length p
      → length p - offset < fuel
      → finished_loop pb fuel p offset ≢ none
  unfolding finished_loop
  finished_loop-ne-none zero p offset small inside enough = absurd (omega arith)
  finished_loop-ne-none (suc fuel) p offset small inside enough = ground (
    arith,
    laws.memfind_from p (codes "\r\n") ((offset + 4) % 65536),
    finished_loop-ne-none fuel p ((pb.memfind p (codes "\r\n") ((offset + 4) % 65536) + 2) % 65536),
  )

  -- With readers that keep what lwIP documents, the search for the end of a response returns, whatever the
  -- data holds, as long as it has no more than 65531 bytes.
  pub smtp_is_response_finished_total :
      (p : Bytes) → length p ≤ 65531 → smtp_is_response_finished pb (some p) ≢ none
  unfolding smtp_is_response_finished
  smtp_is_response_finished_total p small =
      finished_loop-ne-none (length p + 1) p 0 small (omega arith) (omega arith)
