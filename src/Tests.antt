-- ===== src/Tests.antt =====
-- Runs of the code on small inputs, and each theorem at one of them. The interpreter of the tests
-- knows the characters of ASCII.
mod Samples
mod Upload
mod Limits
mod CsvParse
mod Te
mod Accounts
mod GapReport
mod Review
mod Routes
mod SignIn
mod Runner
mod Signatures
mod Tiers
mod Tenancy
mod Creation
mod Startup
mod Validator
