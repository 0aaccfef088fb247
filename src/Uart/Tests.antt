-- ===== src/Uart/Tests.antt =====
-- A number that the serial port sends.
use kernel_hobby.Base.{◌≡◌, refl, [], ◌∷◌}
use kernel_hobby.Uart.{dec_bytes, dec_loop}

dec_bytes_305 : dec_bytes 305 ≡ b'3' ∷ b'0' ∷ b'5' ∷ []
unfolding dec_bytes dec_loop
dec_bytes_305 = refl
