-- ===== src/Examples.antt =====
-- Concrete inputs for the theorems.
mod Json
mod Inputs
mod Queues
mod Operations
mod Lists
mod Attempts
mod Exchanges
mod Runs
mod Courses
mod Exits
mod Logs
mod Restarts
mod Requests
mod Signatures
mod Receipts
mod Settings
mod Starts
mod Scrapes
