-- ===== src/Protocol/Tag.antt =====
-- The type bytes of src/core/protocol.rs.
use bcmr.Prelude.{ℕ}

abbrev pub type_hello : ℕ
type_hello = 0x01

abbrev pub type_list : ℕ
type_list = 0x02

abbrev pub type_stat : ℕ
type_stat = 0x03

abbrev pub type_hash : ℕ
type_hash = 0x04

abbrev pub type_get : ℕ
type_get = 0x05

abbrev pub type_put : ℕ
type_put = 0x06

abbrev pub type_mkdir : ℕ
type_mkdir = 0x07

abbrev pub type_resume : ℕ
type_resume = 0x08

abbrev pub type_done : ℕ
type_done = 0x09

abbrev pub type_have_blocks : ℕ
type_have_blocks = 0x0a

abbrev pub type_open_direct : ℕ
type_open_direct = 0x0b

abbrev pub type_auth_hello : ℕ
type_auth_hello = 0x0c

abbrev pub type_put_chunked : ℕ
type_put_chunked = 0x0d

abbrev pub type_get_chunked : ℕ
type_get_chunked = 0x0e

abbrev pub type_truncate : ℕ
type_truncate = 0x0f

abbrev pub type_welcome : ℕ
type_welcome = 0x81

abbrev pub type_ok : ℕ
type_ok = 0x82

abbrev pub type_error : ℕ
type_error = 0x83

abbrev pub type_data : ℕ
type_data = 0x84

abbrev pub type_stat_response : ℕ
type_stat_response = 0x85

abbrev pub type_hash_response : ℕ
type_hash_response = 0x86

abbrev pub type_list_response : ℕ
type_list_response = 0x87

abbrev pub type_resume_response : ℕ
type_resume_response = 0x88

abbrev pub type_data_compressed : ℕ
type_data_compressed = 0x89

abbrev pub type_missing_blocks : ℕ
type_missing_blocks = 0x8a

abbrev pub type_direct_ready : ℕ
type_direct_ready = 0x8b

abbrev pub type_auth_challenge : ℕ
type_auth_challenge = 0x8c
