-- ===== src/Types.antt =====
-- include/types.h: the structures that the parts of the server share. A character array is the list
-- of its bytes, all of them, whatever text it holds.
use facows.Prelude.{ℕ, Bool, Option, ℤ}
use facows.Mem.Run.{Bytes}

-- struct fws_conf
pub record Conf : Type 0 where
  pub http_port : ℕ
  pub https_port : ℕ
  pub pps_limit : ℕ
  pub pps_burst : ℕ
  pub ban_time : ℕ
  pub ban_lim : ℕ
  pub hsts_max_age : ℕ
  pub cache_max_age : ℕ
  pub lim_swap_time : ℕ
  pub lim_page : ℕ
  pub lim_res : ℕ
  pub use_nft : Bool
  pub use_hsts : Bool
  pub use_ktls : Bool
  pub test_mode : Bool
  pub allow_ports : Bytes
  pub domain : Bytes
  pub web_root : Bytes
  pub web_log : Bytes
  pub ssl_cert : Bytes
  pub ssl_key : Bytes
  pub mime_default : Bytes
  pub mime : Bytes

-- struct fws_http_req, without the array `ip`, which no code uses. `path` and `query` point into
-- `uri`.
pub record HttpReq : Type 0 where
  pub lang : Bytes
  pub version : Bytes
  pub method : Bytes
  pub os : Bytes
  pub browser : Bytes
  pub etag : Bytes
  pub subdomain : Bytes
  pub origin : Bytes
  pub uri : Bytes
  pub path : Bytes
  pub path_n : ℕ
  pub query : Option Bytes
  pub query_n : ℕ

-- struct fws_http_res
pub record HttpRes : Type 0 where
  pub hsts_max_age : ℕ
  pub code : ℕ
  pub connection : ℕ
  pub is_origin_self : Bool
  pub content : Bytes
  pub date : Bytes
  pub etag : Bytes

-- struct fws_file
pub record FwsFile : Type 0 where
  pub uri_path : Bytes
  pub uri_path_n : ℕ
  pub path : Bytes
  pub size : ℕ

-- struct fws_nft
pub record Nft : Type 0 where
  pub ip_buf : Bytes
  pub html_cnt : ℕ
  pub no_html_cnt : ℕ
  pub dos_cnt : ℕ

-- struct fws_data_ctx, what a connection keeps between two events. Left out: file_buf, which holds the
-- piece of the file that is on its way, and the descriptors and pointers, which the functions of the
-- model take as arguments.
pub record DataCtx : Type 0 where
  pub file_len : ℤ
  pub req_buf : Bytes
  pub acc_read_n : ℕ
  pub want_write : Bool
  pub ssl_status : ℕ
  pub file_path : Bytes
  pub client_ip_buf : Bytes
