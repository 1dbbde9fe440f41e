-- ===== src/Tests.antt =====
-- Runs of the model at concrete inputs, and each theorem applied at one.
mod Retry
mod RuntimeJoin
mod Reachability
mod Certificate
mod Webhook
mod Cve
mod Regulatory
mod Pii
mod CodeIngester
mod Nuclei
mod Sbom
mod Taint
mod NlQuery
mod CodeApi
mod GraphApi
mod CertificateApi
mod Ownership
