-- ===== src/Tool/Number/Port.antt =====
-- The two `getPort`, of src/xcc.cpp and src/xcd.cpp.
use xchange.Prelude.{ℕ, ◌%◌, ◌≤◌, ◌≡◌, ◌↔◌, arith, some, Bytes}
use xchange.Tool.Number.{number, stoul, client_port, server_port}

-- For a text that reads as a number the client takes the number modulo 65536 as the port, and it
-- agrees with the server exactly when the number is at most 65535.
pub client_port-server_port :
    (s : Bytes) (v : ℕ)
    → stoul s ≡ number v
    → (client_port s ≡ some (v % 65536)) × ((client_port s ≡ server_port s) ↔ (v ≤ 65535))
unfolding client_port server_port
client_port-server_port s v e = (ground arith, (λ same. ground arith, λ le. ground arith))
