-- ===== src/Config/Settings.antt =====
-- config/config.go: the configuration's types.
use kroxy.Base.{Bool, Bytes}
use kroxy.Resolver.Memory

pub record TlsConfig : Type 0 where
  pub enabled : Bool
  pub cert_file : Bytes
  pub key_file : Bytes

pub record MetricsConfig : Type 0 where
  pub enabled : Bool
  pub listen : Bytes

pub record AdminConfig : Type 0 where
  pub enabled : Bool
  pub listen : Bytes

pub record UpstreamSaslConfig : Type 0 where
  pub mechanism : Bytes

pub record UpstreamConfig : Type 0 where
  pub bootstrap : Bytes
  pub sasl : UpstreamSaslConfig

pub record LogConfig : Type 0 where
  pub level : Bytes
  pub format : Bytes

pub record Config : Type 0 where
  pub listen : Bytes
  pub advertised : Bytes
  pub tls : TlsConfig
  pub upstream : UpstreamConfig
  pub resolver : Memory.Config
  pub log : LogConfig
  pub metrics : MetricsConfig
  pub admin : AdminConfig
