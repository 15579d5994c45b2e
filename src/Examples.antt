-- ===== src/Examples.antt =====
-- Tests of the model on concrete inputs, and for each result an input on which its conditions hold.
-- They run on the libraries of `External/Sample`.
mod Data
mod Provisioner
mod Races
mod Calls
mod Worlds
mod Runs
mod Rounds
mod Attempts
mod Orders
mod Launch
mod Lifecycle
