-- ===== src/Conf/Keys.antt =====
-- CONF_LIST of src/file_conf.c: the keys, and the members that they stand for.
use facows.Conf.{Member, u32_t, u16_t, bool_t, char_t, ap_t, mime_t}
use facows.Mem.Text.{codes}
use Prim.Native.String.{String}
use facows.Prelude.{List, [], ◌∷◌}
use facows.Mem.Run.{Bytes}

-- struct fws_lookup
pub record Lookup : Type 0 where
  pub key : Bytes
  pub member : Member

abbrev entry : String → Member → Lookup
entry key member = record { key = codes key; member = member }

-- CONF_LIST, in its order
abbrev pub conf_list : List Lookup
conf_list =
    entry "HTTP_PORT" (u16_t (λ v c. record c { http_port = v }))
    ∷ entry "HTTPS_PORT" (u16_t (λ v c. record c { https_port = v }))
    ∷ entry "ALLOW_PORTS" (ap_t 128 (λ c. c.allow_ports) (λ v c. record c { allow_ports = v }))
    ∷ entry "NFT" (bool_t (λ v c. record c { use_nft = v }))
    ∷ entry "LIM_SWAP_TIME" (u32_t (λ v c. record c { lim_swap_time = v }))
    ∷ entry "LIM_PAGE" (u32_t (λ v c. record c { lim_page = v }))
    ∷ entry "LIM_RES" (u32_t (λ v c. record c { lim_res = v }))
    ∷ entry "PPS_LIMIT" (u32_t (λ v c. record c { pps_limit = v }))
    ∷ entry "PPS_BURST" (u32_t (λ v c. record c { pps_burst = v }))
    ∷ entry "BAN_LIM" (u32_t (λ v c. record c { ban_lim = v }))
    ∷ entry "BAN_TIME" (u32_t (λ v c. record c { ban_time = v }))
    ∷ entry "DOMAIN" (char_t 128 (λ c. c.domain) (λ v c. record c { domain = v }))
    ∷ entry "WEB_ROOT" (char_t 128 (λ c. c.web_root) (λ v c. record c { web_root = v }))
    ∷ entry "WEB_LOG" (char_t 128 (λ c. c.web_log) (λ v c. record c { web_log = v }))
    ∷ entry "SSL_CERT" (char_t 128 (λ c. c.ssl_cert) (λ v c. record c { ssl_cert = v }))
    ∷ entry "SSL_KEY" (char_t 128 (λ c. c.ssl_key) (λ v c. record c { ssl_key = v }))
    ∷ entry "KERNEL_TLS" (bool_t (λ v c. record c { use_ktls = v }))
    ∷ entry "CACHE_MAX_AGE" (u32_t (λ v c. record c { cache_max_age = v }))
    ∷ entry "HSTS" (bool_t (λ v c. record c { use_hsts = v }))
    ∷ entry "HSTS_MAX_AGE" (u32_t (λ v c. record c { hsts_max_age = v }))
    ∷ entry "MIME" (mime_t 1024)
    ∷ entry "MIME_DEFAULT" (char_t 128 (λ c. c.mime_default) (λ v c. record c { mime_default = v }))
    ∷ []
