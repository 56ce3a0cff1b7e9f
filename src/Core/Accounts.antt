-- ===== src/Core/Accounts.antt =====
-- The users that the core is given for each kind of node: core/xray/vmess.go, trojan.go and ss.go.
use Prim.Native.String.{len}
use ljfxznode.Common.{
  ℕ, ◌&&◌, ◌||◌, Option, none, some, List, [], ◌∷◌, String, ltb, ◌==◌, text_key, if◌then◌else◌,
}
use ljfxznode.Panel.{UserInfo, NodeInfo, user_tag}

-- The cipher that a name stands for.
pub data CipherType : Type 0 where
  aes_128_gcm aes_256_gcm chacha20_poly1305 unknown : CipherType

-- `shadowsocks_2022` holds the first bytes of the uuid, whose base64 is the key.
pub data Account : Type 0 where
  vmess : String → Account
  vless : String → String → Account
  trojan : String → Account
  shadowsocks : String → CipherType → Account
  shadowsocks_2022 : String → ℕ → Account

pub record User : Type 0 where
  pub email : String
  pub account : Account

-- `lower` is `strings.ToLower`.
unfoldable pub get_cipher_from_string : (String → String) → String → CipherType
get_cipher_from_string lower c =
    let l = lower c in
    if l == "aes-128-gcm" || l == "aead_aes_128_gcm"
    then aes_128_gcm
    else (if l == "aes-256-gcm" || l == "aead_aes_256_gcm"
        then aes_256_gcm
        else (if l == "chacha20-poly1305"
              || (l == "aead_chacha20_poly1305" || l == "chacha20-ietf-poly1305")
            then chacha20_poly1305
            else unknown))

-- The number of bytes of the uuid that make the key.
unfoldable pub cipher_key_length : String → ℕ
cipher_key_length cypher =
    if cypher == "2022-blake3-aes-128-gcm"
    then 16
    else (if cypher == "2022-blake3-aes-256-gcm"
        then 32
        else (if cypher == "2022-blake3-chacha20-poly1305" then 32 else 0))

unfoldable pub key_length : String → ℕ → ℕ
unfolding cipher_key_length
key_length cypher uuid_length =
    let n = cipher_key_length cypher in if ltb 0 n && ltb uuid_length n then uuid_length else n

-- The uuid is cut to the cipher's key length, and never beyond its end.
unfoldable pub ss_account : (String → String) → String → String → String → Account
unfolding get_cipher_from_string key_length
ss_account lower cypher server_key uuid =
    if server_key == ""
    then shadowsocks uuid (get_cipher_from_string lower cypher)
    else shadowsocks_2022 uuid (key_length cypher (len uuid))

-- The switch of `AddUsers` on the type of the node; `none` is the error for a type that is not
-- supported.
unfoldable pub account_builder : (String → String) → NodeInfo → Option (UserInfo → Account)
unfolding ss_account
account_builder lower n =
    if n.node_type == "vmess"
    then some (λ u. vmess u.uuid)
    else (if n.node_type == "vless"
        then some (λ u. vless u.uuid n.flow)
        else (if n.node_type == "trojan"
            then some (λ u. trojan u.uuid)
            else (if n.node_type == "shadowsocks"
                then some (λ u. ss_account lower n.cipher n.server_key u.uuid)
                else none)))

unfoldable pub build_users : String → (UserInfo → Account) → List UserInfo → List User
unfolding user_tag
build_users tag account [] = []
build_users tag account (u ∷ us) =
    record { email = user_tag tag u.uuid; account = account u } ∷ build_users tag account us
