-- ===== src/Wire.antt =====
-- Byte order on the wire: the macro `ntohll` of Infiniswap/infiniswap_bd/infiniswap.h and of
-- Infiniswap/infiniswap_daemon/rdma-common.h, and the function `htonll` of rdma-common.c. Both
-- machines are little-endian, so `htonl` and `ntohl` reverse four bytes.
pub mod RoundTrip
use dis_store.Prelude.{ℕ, ◌+◌, ◌*◌, ◌/◌, ◌%◌, ◌^◌}
use dis_store.Prelude.Bits.{or_bits}

-- `htonl` and `ntohl` of a little-endian machine, on 32 bits.
unfoldable pub ntohl : ℕ → ℕ
ntohl x =
    x % 2 ^ 8 * 2 ^ 24
    + x / 2 ^ 8 % 2 ^ 8 * 2 ^ 16
    + x / 2 ^ 16 % 2 ^ 8 * 2 ^ 8
    + x / 2 ^ 24 % 2 ^ 8

-- The macro: both halves are cast to `int`, which keeps their 32 bits.
unfoldable pub ntohll : ℕ → ℕ
ntohll x = or_bits 64 (ntohl (x * 2 ^ 32 % 2 ^ 64 / 2 ^ 32) * 2 ^ 32) (ntohl (x / 2 ^ 32))

-- `htonll` of the server.
unfoldable pub htonll : ℕ → ℕ
htonll value = or_bits 64 (ntohl (value % 2 ^ 32) * 2 ^ 32) (ntohl (value / 2 ^ 32 % 2 ^ 32))
